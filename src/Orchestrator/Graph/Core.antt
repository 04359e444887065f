-- ===== src/Orchestrator/Graph/Core.antt =====
-- The machine that the graph drives, and its events, persistence, cancellation and budgets
-- (graph.py: `_emit` to `_spend_delegation`). What the graph asks of its store, of the MCP server
-- and of the specialist is recorded in `effects`, the latest first; a store does not raise.
use agent_workbench.Base.{
  ℕ, ◌+◌, String, ◌<>◌, true, false, Option, none, some, List, ◌∷◌, ltb, decimal, if◌then◌else◌,
}
use agent_workbench.Base.Action.{
  Action, Result, returned, pure, raise, gets, modify, raise_if, ◌>>=◌, ◌>>◌,
}
use agent_workbench.Base.Json.{str, Fields, end, field, merge}
use agent_workbench.Contracts.Events.{EventType, AgentEvent, make_event}
use agent_workbench.Orchestrator.Breaker.{Breaker}
use agent_workbench.Orchestrator.Clients.{Exn, run_cancelled, budget_exceeded, failure, Clients}
use agent_workbench.Orchestrator.State.{
  RunState, BudgetUsage, Node, classify, plan, resources, mcp_reads, a2a_delegate, correlate,
  findings, propose, policy, approval_pause, execute_approved, verify, complete, unknown,
}

pub data Effect : Type 0 where
  saved : RunState → Effect
  appended : AgentEvent → Effect
  -- a tool, its arguments and its timeout
  invoked : String → Fields → ℕ → Effect
  delegated : Fields → Effect
  cancel_sent : String → Effect

pub record Machine (World : Type 0) : Type 0 where
  pub run : RunState
  pub breaker : Breaker
  pub effects : List Effect
  pub world : World

-- `_check_budgets` once the clock is read: the budget that is passed, in the order of the tests.
unfoldable pub passed_budget : RunState → ℕ → Option String
passed_budget r now =
    if ltb r.limits.max_model_calls r.usage.model_calls
    then some "max_model_calls exceeded"
    else if ltb r.limits.max_tool_calls r.usage.tool_calls
    then some "max_tool_calls exceeded"
    else if ltb r.limits.max_delegations r.usage.delegations
    then some "max_delegations exceeded"
    else if ltb r.limits.max_input_tokens r.usage.input_tokens
    then some "max_input_tokens exceeded"
    else if ltb r.limits.max_output_tokens r.usage.output_tokens
    then some "max_output_tokens exceeded"
    else if ltb r.limits.max_delegation_depth (
        if ltb r.usage.delegations r.usage.delegation_depth
        then r.usage.delegation_depth
        else r.usage.delegations)
    then some "max_delegation_depth exceeded"
    else if ltb r.limits.max_cost_usd r.usage.cost_usd
    then some "max_cost_usd exceeded"
    else if ltb (r.started_at + r.limits.max_duration_seconds) now
    then some "max_duration exceeded"
    else none

abbrev pub node_text : Node → String
node_text classify = "classify"
node_text plan = "plan"
node_text resources = "resources"
node_text mcp_reads = "mcp_reads"
node_text a2a_delegate = "a2a_delegate"
node_text correlate = "correlate"
node_text findings = "findings"
node_text propose = "propose"
node_text policy = "policy"
node_text approval_pause = "approval_pause"
node_text execute_approved = "execute_approved"
node_text verify = "verify"
node_text complete = "complete"
node_text (unknown s) = s

-- The event that `_emit` builds; `sensitive` and `safe_for_ui` are never given other values.
unfoldable pub next_event : RunState → EventType → Fields → AgentEvent
next_event r type payload = record {
  event_id = r.run_id <> "-e" <> decimal r.event_sequence;
  run_id = r.run_id;
  tenant_id = r.tenant_id;
  sequence = r.event_sequence;
  type = type;
  payload = payload;
  trace_id = r.trace_id;
  correlation_id = r.correlation_id;
  sensitive = false;
  safe_for_ui = true;
}

module _ (c : Clients) where
  abbrev pub Graph : Type 0 → Type 0
  Graph A = Action (Machine c.World) Exn A

  unfoldable pub update : (RunState → RunState) → Graph (Unit {0})
  update f = modify (λ m. record m { run = f m.run })

  unfoldable pub effect : Effect → Graph (Unit {0})
  effect e = modify (λ m. record m { effects = e ∷ m.effects })

  unfoldable pub get_run : Graph RunState
  get_run = gets (λ m. m.run)

  -- A client's call: it changes only its world.
  unfoldable pub external : {A : Type 0} → (c.World → Result Exn A × c.World) → Graph A
  external f m = let (r, w) = f m.world in (r, record m { world = w })

  unfoldable pub from_result : {A : Type 0} → Result Exn A → Graph A
  from_result r m = (r, m)

  -- `deps.store.save(state)`
  unfoldable pub save : Graph (Unit {0})
  save m = (returned tt, record m { effects = saved m.run ∷ m.effects })

  unfoldable pub append : Option AgentEvent → Graph (Unit {0})
  append none = raise (failure "ValidationError" "AgentEvent")
  append (some e) = effect (appended e)

  -- `_emit`
  unfoldable pub emit : EventType → Fields → Graph (Unit {0})
  unfolding append
  emit type payload = do
    update (λ r. record r { event_sequence = r.event_sequence + 1 })
    r ← get_run
    append (make_event (next_event r type payload))

  -- `_transition`
  unfoldable pub transition : Node → EventType → Fields → Graph (Unit {0})
  transition next type payload = do
    update (λ r. record r { current_state = next })
    emit type (merge (field "state" (str (node_text next)) end) payload)
    save

  -- `_check_cancel`
  unfoldable pub check_cancel : Graph (Unit {0})
  check_cancel = do r ← get_run; raise_if r.cancelled run_cancelled

  unfoldable pub raise_budget : Option String → Graph (Unit {0})
  raise_budget none = pure tt
  raise_budget (some message) = raise (budget_exceeded message)

  -- `_check_budgets`
  unfoldable pub check_budgets : Graph (Unit {0})
  unfolding raise_budget
  check_budgets = do
    r ← get_run
    now ← external (λ w. let (t, w') = c.now w in (returned t, w'))
    raise_budget (passed_budget r now)

  unfoldable pub charge : (BudgetUsage → BudgetUsage) → Graph (Unit {0})
  charge f = update (λ r. record r { usage = f r.usage })

  -- `_spend_model`, MODEL_COST_USD = 0.05
  unfoldable pub spend_model : Graph (Unit {0})
  spend_model = do
    charge (λ u. record u { model_calls = u.model_calls + 1; cost_usd = u.cost_usd + 500 })
    check_budgets

  -- `_spend_tool`, TOOL_COST_USD = 0.01
  unfoldable pub spend_tool : Graph (Unit {0})
  spend_tool = do
    charge (λ u. record u { tool_calls = u.tool_calls + 1; cost_usd = u.cost_usd + 100 })
    check_budgets

  -- `_spend_delegation`, DELEGATION_COST_USD = 0.10
  unfoldable pub spend_delegation : Graph (Unit {0})
  spend_delegation = do
    charge (λ u. record u {
      delegations = u.delegations + 1;
      delegation_depth = u.delegation_depth + 1;
      cost_usd = u.cost_usd + 1000;
    })
    check_budgets
