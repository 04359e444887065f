-- ===== src/Orchestrator.antt =====
-- The bounded investigation graph: apps/orchestrator.
pub mod State
pub mod Breaker
pub mod Policies
pub mod Registry
pub mod Utilities
pub mod Clients
pub mod Graph
pub mod Trace
pub mod Refinement
pub mod Safety
pub mod Progress
pub mod Approval
pub mod Fakes
pub mod Examples
mod Tests
