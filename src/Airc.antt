-- ===== src/Airc.antt =====
-- AIRC/1, the protocol on the air, src/airc/.
pub mod Frame
pub mod Session
use rfircd.Prelude.{ℕ}

-- `AircError` of src/airc/mod.rs.
pub data AircError : Type 0 where
  truncated not_airc : AircError
  unknown_kind : ℕ → AircError
  bad_fragment : AircError
