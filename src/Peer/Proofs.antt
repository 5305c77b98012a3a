-- ===== src/Peer/Proofs.antt =====
-- src/Peer.cpp: the theorems.
pub mod Ledger
pub mod Sending
pub mod Loops
pub mod Parts
pub mod Steps
pub mod History
pub mod Endings
pub mod Tickets
