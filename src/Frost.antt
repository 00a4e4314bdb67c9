-- ===== src/Frost.antt =====
-- The FROST protocol of frost-signer and frost-coordinator.
pub mod Wsts
pub mod Messages
pub mod Util
pub mod Config
pub mod States
pub mod Laws
pub mod Hash
pub mod Tags
pub mod Verify
pub mod Authentic
pub mod Round
pub mod Coordinator
