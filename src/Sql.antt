-- ===== src/Sql.antt =====
-- common/sqlutils/ast: the traversal of a parsed query, and its printer.
pub mod Ast
pub mod Fields
pub mod Walk
pub mod Aliases
pub mod Text
pub mod Digits
pub mod Dump
pub mod Verdict
pub mod Accepted
pub mod Queries
pub mod Literals
