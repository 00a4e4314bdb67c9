-- ===== src/SignerApi.antt =====
-- stacks-signer-api: the votes on transactions, and the signer's configuration.
pub mod Table
pub mod Vote
pub mod Database
pub mod Settings
pub mod Routes
pub mod Pages
pub mod Casting
pub mod Pagination
pub mod Race
pub mod Setup
