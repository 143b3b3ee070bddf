-- ===== src/Encryption.antt =====
-- common/crypto and mutators/encryption.cc: the values of encrypted columns.
pub mod Aes
pub mod Literal
pub mod Statement
pub mod Row
pub mod Description
pub mod Each
pub mod Guard
pub mod Clauses
pub mod Scopes
pub mod ScopedJoins
pub mod ScopedClauses
pub mod Scoped
pub mod Conditions
pub mod Query
pub mod Printable
