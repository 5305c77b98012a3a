-- ===== src/Storage.antt =====
-- src/StorageBridge.cpp with child processes, on a Unix system that is not a mobile one.
pub mod Backend
pub mod Jobs
pub mod Server
pub mod Serving
pub mod Proofs
