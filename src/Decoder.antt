-- ===== src/Decoder.antt =====
-- postgres_tde/source/filters/network/postgres_tde/postgres_decoder.h and .cc: the state machine
-- that cuts the two byte streams into messages and hands these to the filter.
pub mod Table
pub mod State
pub mod Body
pub mod Step
pub mod Progress
pub mod Frame
pub mod PassThrough
pub mod Modes
pub mod Repeats
pub mod InSync
pub mod Outcomes
pub mod Continue
pub mod Stable
pub mod Appends
pub mod Prefix
