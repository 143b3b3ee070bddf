-- ===== src/Examples.antt =====
-- The theorems at concrete inputs.
mod Messages
mod Decoding
mod Rows
mod Queries
mod Values
pub mod Mutators
pub mod Chain
pub mod Joins
