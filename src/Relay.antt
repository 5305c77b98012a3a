-- ===== src/Relay.antt =====
-- src/RelayServer.cpp: the relay between the peers of one account.
pub mod State
pub mod Pairing
pub mod Messages
pub mod Events
pub mod Proofs
