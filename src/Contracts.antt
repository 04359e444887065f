-- ===== src/Contracts.antt =====
-- The contracts that the parts exchange: packages/contracts.
pub mod Fields
pub mod Events
pub mod Invocations
