-- ===== src/Peg/Process.antt =====
-- stacks-coordinator/src/coordinator.rs: what is done with the operations of the queue.
pub mod Broadcast
pub mod Retries
pub mod Loop
pub mod PegOut
pub mod Witness
pub mod Run
