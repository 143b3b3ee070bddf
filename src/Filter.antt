-- ===== src/Filter.antt =====
-- postgres_filter.cc: `PostgresFilter`, which Envoy calls with the data of a connection.
pub mod State
pub mod Run
pub mod Decode
pub mod Turns
pub mod Whole
pub mod Resumes
pub mod Pieces
pub mod Prefix
pub mod Sent
pub mod Flush
pub mod Stream
pub mod StreamBack
pub mod Forwarding
pub mod Answer
pub mod Lost
pub mod New
