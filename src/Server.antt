-- ===== src/Server.antt =====
-- The server behind the radio, src/server/.
pub mod Mailbox
pub mod State
pub mod Setup
pub mod Commands
pub mod Channels
