-- ===== src/Lib.antt =====
-- The Agent Operations Workbench: a gateway that runs bounded investigations of incidents. A graph of
-- steps (apps/orchestrator) classifies the objective, reads evidence through MCP tools, asks a
-- specialist agent, writes findings, proposes actions, has them checked by policy and approved by a
-- person, and only then executes them.
--
-- Base holds what the parts share: tests, lists, texts, integers, JSON values with Python's dict
-- lookups, dicts, and `Action`, a method call with its state and exceptions, in which what was
-- written before a raise stays written. Base.Keeps and Base.Ends are the rules for invariants and
-- for the results of actions.
--
-- Contracts: packages/contracts (the events and the field constraints).
-- Mcp: the tool gateway, apps/mcp_server. Mcp.Catalog is catalog.py with ToolMetadata of
--   packages/contracts/tools.py; Mcp.Redaction redact.py; Mcp.Inputs models.py; Mcp.Context the
--   checks of security.py; Mcp.Handlers the mock handlers; Mcp.Calls, Mcp.Audit and Mcp.Executor are
--   execute_tool with the stores of store.py. What libraries do (regular expressions, JSON text,
--   SHA-256, the conversions of Pydantic) is a parameter, Mcp.Libraries, of which nothing is assumed.
-- Runtime: apps/orchestrator/runtime.py: the budget ledger, the retries of model calls and the fake
--   runtime. ProviderRuntime, which calls LiteLLM, is not modelled.
-- Orchestrator.State: apps/orchestrator/state.py.
-- Orchestrator.Breaker: CircuitBreaker of apps/orchestrator/graph.py.
-- Orchestrator.Policies: apps/orchestrator/policies.py, with the PolicyDecision of
--   packages/contracts/approvals.py, whose fields evaluate_action's arguments may not fit.
-- Orchestrator.Registry: the tool allowlist of graph.py.
-- Orchestrator.Clients: the Protocols of graph.py, as parameters: a client returns or raises, and
--   changes a world of its own. Nothing is assumed of them.
-- Orchestrator.Graph: OrchestratorGraph. A method `_do_x` is `do_x`, `_x` is `x`; the machine holds
--   the run, the breaker, the effects (saves, events, tool calls, delegations) and the world.
-- Orchestrator.Fakes: the fake clients of graph.py.
-- Orchestrator.Trace: what a run may do, as a step relation; Refinement shows that the graph follows
--   it, and Safety draws the conclusions. Progress shows that the driver's loop ends.
--
-- Persistence: packages/persistence/repositories.py on runs, events and approvals: the tables are a
--   record, `transaction` restores it where a method raises. Persistence.Updates has update_run, the
--   reads of approvals and the Approval contract. An appended event is redacted and has to meet its
--   contract. The redaction is a field of the database, as it is an argument of the repository;
--   Persistence.Redaction is the default one, with the matches of the regular expressions as
--   parameters. Concurrent sessions, tool invocations, findings and audit rows are not modelled.
--
-- Protocols.AgUi: packages/protocols/ag_ui.py, the events as the user interface reads them, over the
--   stable sort of Base.Sort. The text of a timestamp comes with its event.
--
-- Api.Store: apps/api/store.py, the caches of the gateway and the store that its graphs write to.
--   Api.Requests: what its endpoints share. Api.Decide: the decision endpoint of
--   apps/api/routes/approvals.py; Api.Resume: the resumption of the run after it. The source makes
--   its own fake clients; here they are a parameter. Api.Runs: of
--   routes/runs.py the cancellation, the execution in the background and the replay of events;
--   create_run, the run's detail and the text of the event stream are not modelled.
--
-- Security.Authorization: packages/security/authz.py. Security.RateLimiter: the token bucket of
--   packages/security/limits.py, with tokens counted in parts of a token.
--
-- Numbers: confidences are in hundredths, money in 0.0001 USD and times in seconds. The driver's
-- `while True` is a loop on fuel that tells the end of the fuel from its own end; 13 rounds are
-- enough, since each round that goes on moves to a node of a lower rank. Deadlines, latencies,
-- telemetry and the texts of tool descriptions are left out. The Python runtime's number parsing,
-- the text of a value and SHA-256 are parameters (Base.Python).
pub mod Base
pub mod Contracts
pub mod Mcp
pub mod Protocols
pub mod Orchestrator
pub mod Runtime
pub mod Persistence
pub mod Security
pub mod Api
