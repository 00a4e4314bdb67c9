-- ===== src/Peg/Wallet.antt =====
-- stacks-coordinator/src/bitcoin_wallet.rs: the transaction that fulfils a peg-out request.
pub mod Defs
pub mod Balance
