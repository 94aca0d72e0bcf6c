-- ===== src/Examples.antt =====
-- Concrete inputs for the theorems: a machine, a contract, transactions and a store.
pub mod Machine
pub mod Data
pub mod Covenant
pub mod Payout
pub mod Tables
pub mod Leaving
pub mod Early
pub mod Publications
pub mod Adapters
pub mod Signed
pub mod Closing
pub mod Events
pub mod Arkade
pub mod Users
pub mod Arbitrating
pub mod Steps
pub mod Service
pub mod RemoteOracle
pub mod Packets
pub mod Chain
pub mod OwnSigner
pub mod Coins
pub mod Settlement
