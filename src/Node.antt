-- ===== src/Node.antt =====
-- stacks-coordinator: the clients of the Stacks node and the Bitcoin node, the Stacks wallet, the
-- configuration, and the set-up that puts a coordinator together.
pub mod Api
pub mod Read
pub mod Client
pub mod Wallet
pub mod Config
pub mod Setup
pub mod Keys
pub mod Bitcoin
pub mod Signers
pub mod Nonces
pub mod Start
pub mod Started
