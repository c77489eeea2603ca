-- ===== src/Irc.antt =====
-- The IRC side, src/irc/.
pub mod Casemap
pub mod Admission
pub mod Message
