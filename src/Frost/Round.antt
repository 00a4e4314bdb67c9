-- ===== src/Frost/Round.antt =====
-- frost-signer/src/signing_round.rs: one signer's part of key generation and signing.
pub mod Defs
pub mod Shares
pub mod Dkg
pub mod Sign
pub mod Process
pub mod Edges
pub mod Path
pub mod Gather
pub mod Opening
pub mod Sealing
