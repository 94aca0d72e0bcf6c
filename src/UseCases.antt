-- ===== src/UseCases.antt =====
-- The use cases (service/internal/app).
pub mod Ports
pub mod Action
pub mod Packages
pub mod Opening
pub mod Funding
pub mod Settling
pub mod Offering
pub mod Closing
pub mod Leaving
pub mod Answers
pub mod Keeps
pub mod Backed
pub mod Sound
pub mod Kept
pub mod Worker
pub mod Exits
pub mod WayOut
pub mod Evidence
pub mod Steps
pub mod Stakes
pub mod Arbitrating
pub mod Trigger
pub mod Service
pub mod Invariant
pub mod Rules
pub mod Proposal
pub mod Agreement
