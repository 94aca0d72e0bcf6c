-- ===== src/Store.antt =====
-- The contract store (service/internal/postgres/contracts.go) and the small tables beside it
-- (redemptions.go): rows and events as lists. A call that the database itself fails leaves
-- everything as it was and is not modelled.
pub mod Rows
pub mod Advance
pub mod History
pub mod Users
