-- ===== src/Orchestrator/Graph.antt =====
-- `OrchestratorGraph` of apps/orchestrator/graph.py, method by method: the parts in Core, Calls,
-- Steps and Run, and what they keep in the modules of proofs.
pub mod Core
pub mod Calls
pub mod Evidence
pub mod Steps
pub mod Gated
pub mod Run
