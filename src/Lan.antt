-- ===== src/Lan.antt =====
-- src/LanPeer.cpp: the pairing of two devices on the local network, by a QR code or by a discovery.
pub mod Link
pub mod State
pub mod Host
pub mod Offers
pub mod Client
pub mod Events
pub mod Steps
pub mod Proofs
