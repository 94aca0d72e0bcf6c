-- ===== src/Events.antt =====
-- The events broker (service/internal/events/events.go) and the status of an error
-- (service/internal/server/errors.go).
pub mod Broker
pub mod Delivery
pub mod Status
