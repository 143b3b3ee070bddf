-- ===== src/Mutators.antt =====
-- The directory mutators: what the mutators share, the blind index and the probabilistic join.
pub mod Base
pub mod Derived
pub mod Literals
pub mod Additions
pub mod Rows
pub mod Amend
pub mod Passes
pub mod BlindIndex
pub mod Operands
pub mod Indexed
pub mod Compared
pub mod Join
pub mod JoinRows
pub mod JoinIndices
pub mod JoinSpec
pub mod JoinKeys
pub mod JoinRefinement
