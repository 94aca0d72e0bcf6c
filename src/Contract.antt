-- ===== src/Contract.antt =====
-- The contract package (contract/): terms and payout rule, oracle messages, the covenant script,
-- the taproot leaves, the early close, the unilateral exit and the arbitration after it.
pub mod Errors
pub mod Terms
pub mod Split
pub mod Payout
pub mod Opcodes
pub mod Library
pub mod Oracle
pub mod Script
pub mod Vm
pub mod Fields
pub mod Segments
pub mod Covenant
pub mod Settlement
pub mod Tx
pub mod Vtxo
pub mod Scale
pub mod Arbitration
pub mod Leaves
pub mod Exit
pub mod Signing
pub mod Tapscript
pub mod LeafSigs
pub mod OwnLeaves
pub mod Presigned
pub mod Threshold
pub mod Verdict
pub mod Feed
pub mod Redemption
pub mod Early
