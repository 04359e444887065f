-- ===== src/Runtime.antt =====
-- The model runtime of the orchestrator: apps/orchestrator/runtime.py.
pub mod Errors
pub mod Budget
pub mod Retry
pub mod Fake
mod Tests
