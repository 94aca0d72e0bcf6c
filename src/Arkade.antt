-- ===== src/Arkade.antt =====
-- The client of the Ark operator (arkade/*.go): what it builds and signs.
pub mod Client
pub mod Outputs
pub mod Rounds
pub mod Wallet
pub mod Coins
