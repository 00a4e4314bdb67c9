-- ===== src/Peg.antt =====
-- The peg side of stacks-coordinator.
pub mod Queue
pub mod Wallet
pub mod Process
