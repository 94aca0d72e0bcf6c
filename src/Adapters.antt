-- ===== src/Adapters.antt =====
-- The adapters behind the use cases' ports: the chain, the wallets, the signer and the operator.
pub mod Net
pub mod Chain
pub mod Unrolling
pub mod Leaving
pub mod Broadcasts
pub mod Payouts
pub mod Signer
pub mod Signatures
pub mod Funding
pub mod Fragments
pub mod Submitting
pub mod Closes
pub mod Paying
