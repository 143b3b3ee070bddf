-- ===== src/Message.antt =====
-- postgres_tde/source/filters/network/postgres_tde/postgres_message.h and .cc: the field types of
-- Postgres messages and their `validate`, `read`, `getSize` and `write`.
pub mod Format
pub mod Validate
pub mod Read
pub mod Write
pub mod Content
pub mod Place
pub mod Accepts
pub mod Recovers
pub mod RoundTrip
pub mod Size
pub mod Empty
pub mod Inside
pub mod Extends
pub mod Items
pub mod Room
pub mod Stable
