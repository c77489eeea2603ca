-- ===== src/Tests.antt =====
-- Concrete runs: the definitions evaluated on inputs like those of the repository's unit tests, and
-- each property at one of them.
mod Samples
mod Framing
mod Airc
mod Stations
mod Policy
mod Tnc
mod Scheduler
mod Messages
mod Airtime
mod Mailbox
mod Admission
mod ServerState
mod Configs
mod Aprs
