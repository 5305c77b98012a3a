-- ===== src/Lan/Proofs.antt =====
-- src/LanPeer.cpp: the theorems.
pub mod Codes
pub mod Links
pub mod Rules
pub mod Tables
pub mod Sides
pub mod Apart
pub mod Offers
pub mod Deadlines
pub mod Hosting
pub mod Offering
pub mod Joining
pub mod Sweeps
pub mod Hosted
pub mod Reached
pub mod Outcomes
pub mod Pairs
pub mod Files
