-- ===== src/Server/Invariant.antt =====
-- Invariants of the server through all its operations.
pub mod Sends
pub mod Clients
pub mod Writes
pub mod Survival
pub mod AtMostOneLogin
pub mod MarkedClients
pub mod Steps
pub mod Messages
pub mod KnownSubscriptions
pub mod FixedChannels
