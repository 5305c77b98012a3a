-- ===== src/Relay/Proofs.antt =====
-- What holds of the relay.
pub mod Shrinks
pub mod Known
pub mod Removal
pub mod Isolation
pub mod Claims
pub mod Sweeping
pub mod Answers
