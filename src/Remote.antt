-- ===== src/Remote.antt =====
-- The oracle over HTTP: hex, the oracle's server, the service's client, and both together.
pub mod Hex
pub mod OracleServer
pub mod OracleClient
pub mod Delivered
pub mod Priced
