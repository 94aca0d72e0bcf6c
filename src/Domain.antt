-- ===== src/Domain.antt =====
-- The service's own vocabulary (service/internal/domain).
pub mod State
pub mod Lifecycle
pub mod Records
pub mod Laws
