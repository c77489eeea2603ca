-- ===== src/Ax25.antt =====
-- The AX.25 layer, src/ax25/.
pub mod Address
pub mod Frame
pub mod Airtime
pub mod Scheduler
pub mod Tnc

-- `Ax25Error` of src/ax25/mod.rs.
pub data Ax25Error : Type 0 where
  truncated bad_address too_many_digipeaters : Ax25Error
