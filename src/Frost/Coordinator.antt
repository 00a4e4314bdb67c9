-- ===== src/Frost/Coordinator.antt =====
-- frost-coordinator/src/coordinator.rs: the coordinator of key generation and signing.
pub mod Defs
pub mod Dkg
pub mod Finish
pub mod Sign
pub mod Run
pub mod Steps
pub mod Requests
pub mod Signing
pub mod Keys
pub mod Ends
pub mod Rounds
pub mod Total
pub mod Complete
