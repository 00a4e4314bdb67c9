-- ===== src/Relay.antt =====
-- relay-server: the message store that the signers and the coordinator talk through.
pub mod MemState
pub mod Delivery
pub mod Server
pub mod Proxy
