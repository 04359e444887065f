-- ===== src/Api.antt =====
-- The gateway's HTTP interface: apps/api.
pub mod Store
pub mod Requests
pub mod Resume
pub mod Decide
pub mod Runs
mod Tests
