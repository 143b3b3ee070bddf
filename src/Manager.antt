-- ===== src/Manager.antt =====
-- postgres_tde/source/filters/network/postgres_tde/postgres_mutation_manager.h and .cc: queries on
-- their way to the server, and the result of a query on its way back.
pub mod Mutator
pub mod State
pub mod Delivery
pub mod Stale
