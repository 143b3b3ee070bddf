-- ===== src/Chain/Refused.antt =====
-- INSERT statements that the mutators do not let through.
use postgres_tde.Mutators.BlindIndex as BlindIndex
