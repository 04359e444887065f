-- ===== src/Orchestrator/Refinement/Calls.antt =====
-- The calls of Graph/Calls follow the step relation: a tool is invoked once it is paid for.
use agent_workbench.Base.{
  ℕ, zero, suc, ◌+◌, ◌≤◌, String, ◌≡◌, refl, Bool, true, false, Option, none, some, ◌∷◌, arith,
  if◌then◌else◌,
}
use agent_workbench.Base.Action.{Result, returned, raised, modify, pure, raise, gets, ◌>>=◌, ◌>>◌}
use agent_workbench.Base.Json.{Fields}
use agent_workbench.Base.Keeps.{
  Leads, Keeps, Leads-bind, Leads-raise_if, Leads-then, Keeps-then, Keeps-pure, keeps_rules,
}
use agent_workbench.Mcp.Catalog.{ToolMetadata, is_read_category}
use agent_workbench.Orchestrator.Clients.{
  Exn, run_cancelled, budget_exceeded, timeout, failure, Clients,
}
use agent_workbench.Orchestrator.Graph.Calls.{
  settle, mcp_timeout_for, guard_circuit, invoke_checked, read_once, read_attempts, degrade,
  mcp_read, fall_back, judge_answer, judge_failure, judge, call_specialist, delegate,
}
use agent_workbench.Orchestrator.Graph.Core.{
  Machine, Graph, invoked, update, effect, get_run, external, from_result, check_budgets,
  raise_budget, passed_budget, charge, spend_tool,
}
use agent_workbench.Orchestrator.Refinement.{
  Follows, Follows-get_run, Follows-external, Follows-from_result, Follows-delegated,
  Follows-breaker, Follows-update, Follows-emit, Follows-check_cancel, Follows-spend_delegation,
}
use agent_workbench.Orchestrator.Registry.{validate_tool_call}
use agent_workbench.Orchestrator.Registry.Gate.{validate_tool_call-catalog_get}
use agent_workbench.Orchestrator.State.{RunState}
use agent_workbench.Orchestrator.Trace.{View, Move, IsRead, overdraws, pays, forgoes, reads, next}

passed_budget-tool_calls :
    (r : RunState) (now : ℕ)
    → passed_budget r now ≡ none
    → r.usage.tool_calls ≤ r.limits.max_tool_calls
unfolding passed_budget
passed_budget-tool_calls r now h = ground arith

read_category :
    (spec : ToolMetadata)
    → (if is_read_category spec.category then false else true) ≡ false
    → is_read_category spec.category ≡ true
read_category spec h = ground arith

module _ (c : Clients) {v : View} where
  -- The rest of a block may use the value that a check returned.
  pub Follows-bind_result :
      {paid gate : Bool} {A B : Type 0} (r : Result Exn A) (f : A → Graph c B)
      → ((a : A) → r ≡ returned a → Keeps (Follows v paid gate) (f a))
      → Keeps (Follows v paid gate) (from_result c r >>= f)
  unfolding from_result ◌>>=◌
  Follows-bind_result (returned a) f kf = record { at = (kf a refl).at }
  Follows-bind_result (raised e) f kf = record { at = λ m h. h }

  -- A call that is not made is forgone.
  pub Follows-forgo :
      {gate : Bool} (m : Machine c.World) → Follows v true gate m → Follows v false gate m
  Follows-forgo m h = record { at = next h.at (forgoes _) }

  raise_budget_then :
      {gate : Bool} {A : Type 0} (o : Option String) (k : Graph c A)
      → Leads (Follows v true gate) (Follows v false gate) k
      → (m : Machine c.World) → (o ≡ none → Follows v true gate m)
      → Follows v false gate m
      → Follows v false gate ((raise_budget c o >> k) m).1
  unfolding raise_budget ◌>>◌ ◌>>=◌ pure raise
  raise_budget_then none k kk m paid over = kk.at m (paid refl)
  raise_budget_then (some s) k kk m paid over = over

  -- What follows the charge of a tool call may make one call.
  pub Follows-spend_tool :
      {gate : Bool} {A : Type 0} (k : Graph c A)
      → Leads (Follows v true gate) (Follows v false gate) k
      → Keeps (Follows v false gate) (spend_tool c >> k)
  unfolding spend_tool charge update modify check_budgets get_run gets external ◌>>◌ ◌>>=◌
  Follows-spend_tool k kk = record {
    at = λ m h.
        let r : RunState = record m.run {
          usage = record m.run.usage {
            tool_calls = m.run.usage.tool_calls + 1;
            cost_usd = m.run.usage.cost_usd + 100;
          };
        } in
        let (now, w) = c.now m.world in
        raise_budget_then (passed_budget r now) k kk (record m { run = r; world = w })
          (λ p. record { at = next h.at (pays _ (passed_budget-tool_calls r now p)) })
          (record { at = next h.at (overdraws _) });
  }

  pub Follows-invoke_checked :
      {gate : Bool} (name : String) (args : Fields)
      → ((w : View)
          → w.paid ≡ true
          → w.gate ≡ gate
          → Move w (record w {
            paid = false;
            effects = invoked name args (mcp_timeout_for name) ∷ w.effects;
          }))
      → Leads (Follows v true gate) (Follows v false gate) (invoke_checked c name args)
  unfolding invoke_checked effect modify
  Follows-invoke_checked name args move =
      Leads-then _ _ (λ s h. h)
        (record { at = λ m h. record { at = next h.at (move _ refl refl) } })
        (search (keeps_rules, Follows-external c, Follows-from_result c))

  pub Follows-read_once :
      {gate : Bool} (name : String) (args : Fields)
      → IsRead name
      → Keeps (Follows v false gate) (read_once c name args)
  unfolding read_once
  Follows-read_once name args p = Keeps-then _ _ (Follows-check_cancel c) (
      Follows-spend_tool _ (
        Leads-bind _ _ (λ s h. h)
          (Follows-invoke_checked name args (λ w paid gate. reads w name args _ paid p))
          (λ out. search (keeps_rules, Follows-breaker c, Follows-emit c))))

  Follows-settle :
      {gate : Bool} (r : Result Exn Fields) (retry : Graph c (Result Exn Fields))
      → Keeps (Follows v false gate) retry
      → Keeps (Follows v false gate) (settle c r retry)
  unfolding settle
  Follows-settle (returned out) retry h = search keeps_rules
  Follows-settle (raised run_cancelled) retry h = search keeps_rules
  Follows-settle (raised (budget_exceeded s)) retry h = search keeps_rules
  Follows-settle (raised (timeout s t)) retry h = h
  Follows-settle (raised (failure s t)) retry h = search keeps_rules

  pub Follows-read_attempts :
      {gate : Bool} (name : String) (args : Fields)
      → IsRead name
      → (left : ℕ) → Keeps (Follows v false gate) (read_attempts c name args left)
  unfolding read_attempts
  Follows-read_attempts name args p zero = record {
    at = λ m h.
        let (r, m') = read_once c name args m in
        (Follows-settle r (pure r) (Keeps-pure r)).at m' ((Follows-read_once name args p).at m h);
  }
  Follows-read_attempts name args p (suc left) = record {
    at = λ m h.
        let (r, m') = read_once c name args m in
        (Follows-settle r (read_attempts c name args left)
            (Follows-read_attempts name args p left)).at
          m' ((Follows-read_once name args p).at m h);
  }

  Follows-degrade :
      {gate : Bool} (name : String) (args : Fields) (r : Result Exn Fields)
      → Keeps (Follows v false gate) (degrade c name args r)
  unfolding degrade
  Follows-degrade name args (returned out) = search keeps_rules
  Follows-degrade name args (raised e) = search (keeps_rules, Follows-breaker c, Follows-emit c)

  Follows-guard_circuit :
      {gate : Bool} (key : String) → Keeps (Follows v false gate) (guard_circuit c key)
  unfolding guard_circuit
  Follows-guard_circuit key = search keeps_rules

  pub Follows-mcp_read :
      {gate : Bool} (name : String) (args : Fields)
      → Keeps (Follows v false gate) (mcp_read c name args)
  unfolding mcp_read
  Follows-mcp_read name args =
      Follows-bind_result (validate_tool_call c.python name args) _ (λ spec valid.
        Leads-raise_if _ _ _ (λ s h. h)
          (λ is_read. search (
            keeps_rules,
            Follows-guard_circuit,
            Follows-emit c,
            Follows-degrade,
            Follows-read_attempts name args (record {
              spec = spec;
              found = validate_tool_call-catalog_get c.python name args spec valid;
              is_read = read_category spec is_read;
            }),
          )))

  Follows-fall_back :
      {gate : Bool} (b : Bool) (s : String) → Keeps (Follows v false gate) (fall_back c b s)
  unfolding fall_back
  Follows-fall_back b s = search (keeps_rules, Follows-breaker c, Follows-update c)

  Follows-judge_answer :
      {gate : Bool} (out : Fields) → Keeps (Follows v false gate) (judge_answer c out)
  unfolding judge_answer
  Follows-judge_answer out =
      search
        (keeps_rules, Follows-breaker c, Follows-update c, Follows-from_result c, Follows-fall_back)

  Follows-judge_failure : {gate : Bool} (e : Exn) → Keeps (Follows v false gate) (judge_failure c e)
  unfolding judge_failure
  Follows-judge_failure (timeout s t) = Follows-fall_back _ _
  Follows-judge_failure run_cancelled = search keeps_rules
  Follows-judge_failure (budget_exceeded s) = Follows-fall_back _ _
  Follows-judge_failure (failure s t) = Follows-fall_back _ _

  Follows-judge : {gate : Bool} (r : Result Exn Fields) → Keeps (Follows v false gate) (judge c r)
  unfolding judge
  Follows-judge (returned out) = Follows-judge_answer out
  Follows-judge (raised e) = Follows-judge_failure e

  Follows-call_specialist :
      {gate : Bool} (request : Fields) → Keeps (Follows v false gate) (call_specialist c request)
  unfolding call_specialist
  Follows-call_specialist request =
      search (keeps_rules, Follows-delegated c, Follows-external c, Follows-judge)

  pub Follows-delegate : {gate : Bool} → Keeps (Follows v false gate) (delegate c)
  unfolding delegate
  Follows-delegate =
      search
        (
          keeps_rules,
          Follows-fall_back,
          Follows-check_cancel c,
          Follows-spend_delegation c,
          Follows-get_run c,
          Follows-emit c,
          Follows-call_specialist,
        )
        depth 20
