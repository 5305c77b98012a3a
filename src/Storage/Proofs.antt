-- ===== src/Storage/Proofs.antt =====
-- What holds of the storage bridge and the file servers.
pub mod Confined
pub mod Guarded
pub mod Jobs
pub mod Serving
pub mod Children
