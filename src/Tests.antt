-- ===== src/Tests.antt =====
-- Concrete runs, and the theorems applied to them.
pub mod Relaying
pub mod Moving
pub mod Bridging
pub mod Serving
pub mod Sharing
pub mod Webbing
pub mod Signing
pub mod Framing
pub mod Nearby
pub mod Linking
