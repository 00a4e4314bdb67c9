-- ===== src/Tests.antt =====
-- The properties at concrete inputs, and the parameters that these inputs need.
mod Toy
mod Relay
mod Frost
mod Coordinator
mod Peg
mod Wallet
mod Process
mod Node
mod Start
mod SignerApi
