-- ===== src/Transfer.antt =====
-- src/Transfer.h and src/Transfer.cpp: file transfers through libcurl.
pub mod Protocols
pub mod Validate
pub mod Callbacks
pub mod Options
pub mod Perform
pub mod Jobs
pub mod Proofs
