-- ===== src/Config.antt =====
-- The directory config: what the mutators ask of the encryption configuration.
pub mod Column
pub mod Dummy
pub mod Consistent
