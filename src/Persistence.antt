-- ===== src/Persistence.antt =====
-- The store of the gateway: packages/persistence.
pub mod Database
pub mod Redaction
pub mod Repository
pub mod Updates
pub mod Steps
pub mod RoundTrip
pub mod Transactions
pub mod Numbering
mod Tests
