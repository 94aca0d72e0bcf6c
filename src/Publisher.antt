-- ===== src/Publisher.antt =====
-- The oracle service (service/internal/oracle, service/internal/postgres/oracle.go).
pub mod Sequence
pub mod Adjacent
