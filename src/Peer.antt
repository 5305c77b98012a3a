-- ===== src/Peer.antt =====
-- src/Peer.cpp: the client of the relay, with its direct links to other peers.
pub mod State
pub mod Loss
pub mod Requests
pub mod Links
pub mod Messages
pub mod Events
pub mod Turns
pub mod Proofs
