-- ===== src/Transfer/Proofs.antt =====
-- What holds of the transfers.
pub mod Validated
pub mod Bounded
pub mod Outcome
pub mod Slots
