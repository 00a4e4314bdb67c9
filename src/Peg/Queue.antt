-- ===== src/Peg/Queue.antt =====
-- stacks-coordinator/src/peg_queue: the queue of sBTC operations in a SQLite database.
pub mod Defs
pub mod Ops
pub mod Order
pub mod Table
pub mod Dispense
pub mod Polling
pub mod Blocks
pub mod Lookup
pub mod Valid
