-- ===== src/Orchestrator/Refinement.antt =====
-- The graph follows the step relation of Trace: the rules for the parts of Graph/Core.
pub mod Calls
pub mod Steps
pub mod Gated
pub mod Run
use agent_workbench.Base.{
  ℕ, ◌+◌, String, ◌≡◌, refl, sym, ap, ◌∙◌, subst, ◌∷◌, Bool, true, false, Option, none, some, List,
  ltb, Bool-cases, inl, inr, arith, ◌≤◌, if◌then◌else◌,
}
use agent_workbench.Base.Action.{
  Action, Result, returned, raised, modify, raise_if, ◌>>=◌, ◌>>◌, pure, raise, gets,
}
use agent_workbench.Base.Json.{Fields}
use agent_workbench.Base.Keeps.{Leads, Keeps, Leads-bind, Keeps-bind, Keeps-modify, keeps_rules}
use agent_workbench.Contracts.Events.{EventType, AgentEvent, make_event, stripped, is_accepted}
use agent_workbench.Orchestrator.Breaker.{Breaker}
use agent_workbench.Orchestrator.Clients.{Exn, Clients}
use agent_workbench.Orchestrator.Graph.Core.{
  Machine, Graph, Effect, saved, appended, invoked, delegated, cancel_sent, update, effect, get_run,
  external, from_result, save, append, emit, transition, check_cancel, check_budgets, raise_budget,
  passed_budget, charge, spend_model, spend_tool, spend_delegation, next_event,
}
use agent_workbench.Orchestrator.State.{RunState, BudgetUsage, BudgetLimits, Node}
use agent_workbench.Orchestrator.Trace.{
  View, view, is_execute, Move, saves, skips, emits, moves, overdraws, pays, forgoes, reads, writes,
  delegates, cancels, Reach, here, next,
}

-- The part of a run that the view shows.
abbrev pub shown : RunState → Node × BudgetLimits × ℕ × ℕ
shown r = (r.current_state, r.limits, r.usage.tool_calls, r.event_sequence)

-- The machine is where the step relation can get to from `v`.
pub record Follows {World : Type 0} (v : View) (paid gate : Bool) (m : Machine World) : Type 0 where
  pub at : Reach v (view paid gate m)

accepted_same : (b : Bool) (e f : AgentEvent) → (if b then some e else none) ≡ some f → e ≡ f
accepted_same true e f h = cc
accepted_same false e f h = cc

sequence-make_event : (e f : AgentEvent) → make_event e ≡ some f → f.sequence ≡ e.sequence
unfolding make_event stripped
sequence-make_event e f h =
    sym (ap (λ x. x.sequence) (accepted_same (is_accepted (stripped e)) (stripped e) f h))

module _ (c : Clients) {v : View} where
  pub Follows-get_run : {paid gate : Bool} → Keeps (Follows v paid gate) (get_run c)
  unfolding get_run gets
  Follows-get_run = record { at = λ m h. record { at = h.at } }

  pub Follows-external :
      {paid gate : Bool}
      → {A : Type 0} (f : c.World → Result Exn A × c.World)
      → Keeps (Follows v paid gate) (external c f)
  unfolding external
  Follows-external f = record { at = λ m h. record { at = h.at } }

  pub Follows-from_result :
      {paid gate : Bool}
      → {A : Type 0} (r : Result Exn A) → Keeps (Follows v paid gate) (from_result c r)
  unfolding from_result
  Follows-from_result r = record { at = λ m h. record { at = h.at } }

  pub Follows-breaker :
      {paid gate : Bool}
      → (f : Machine c.World → Breaker)
      → Keeps {E = Exn} (Follows v paid gate) (modify (λ m. record m { breaker = f m }))
  unfolding modify
  Follows-breaker f = record { at = λ m h. record { at = h.at } }

  pub Follows-update :
      {paid gate : Bool}
      → (f : RunState → RunState) → ((r : RunState) → shown (f r) ≡ shown r)
      → Keeps (Follows v paid gate) (update c f)
  unfolding update modify
  Follows-update {paid = paid} {gate = gate} f same = record {
    at = λ m h. record {
      at =
          subst
            (λ s. Reach v (record (view paid gate m) {
              node = s.0;
              limits = s.1;
              tool_calls = s.2;
              last_number = s.3;
            }))
            (sym (same m.run)) h.at;
    };
  }

  pub Follows-move :
      {paid gate : Bool}
      → (n : Node) → is_execute n ≡ false
      → Keeps (Follows v paid gate) (update c (λ r. record r { current_state = n }))
  unfolding update modify
  Follows-move n p = record { at = λ m h. record { at = next h.at (moves _ n p) } }

  pub Follows-moved :
      {paid gate : Bool} (f : RunState → RunState) (n : Node)
      → is_execute n ≡ false
      → ((r : RunState) → shown (f r) ≡ shown (record r { current_state = n }))
      → Keeps (Follows v paid gate) (update c f)
  unfolding update modify
  Follows-moved {paid = paid} {gate = gate} f n p same = record {
    at = λ m h. record {
      at =
          subst
            (λ s. Reach v (record (view paid gate m) {
              node = s.0;
              limits = s.1;
              tool_calls = s.2;
              last_number = s.3;
            }))
            (sym (same m.run)) (next h.at (moves _ n p));
    };
  }

  pub Follows-save : {paid gate : Bool} → Keeps (Follows v paid gate) (save c)
  unfolding save
  Follows-save = record { at = λ m h. record { at = next h.at (saves _ m.run) } }

  pub Follows-delegated :
      {paid gate : Bool}
      → (request : Fields) → Keeps (Follows v paid gate) (effect c (delegated request))
  unfolding effect modify
  Follows-delegated request = record { at = λ m h. record { at = next h.at (delegates _ request) } }

  append-Reach :
      (m : Machine c.World) (paid gate : Bool) (o : Option AgentEvent)
      → ((e : AgentEvent) → o ≡ some e → e.sequence ≡ m.run.event_sequence)
      → (n : ℕ) → m.run.event_sequence ≡ n + 1
      → Reach v (record (view paid gate m) { last_number = n })
      → Reach v (view paid gate (append c o m).1)
  unfolding append effect modify raise
  append-Reach m paid gate none same n p h =
      subst (λ k. Reach v (record (view paid gate m) { last_number = k })) (sym p)
        (next h (skips _))
  append-Reach m paid gate (some e) same n p h =
      subst
        (λ k.
          Reach v (record (view paid gate m) { last_number = k; effects = appended e ∷ m.effects }))
        (sym p) (next h (emits _ e (same e refl ∙ p)))

  pub Follows-emit :
      {paid gate : Bool} (t : EventType) (payload : Fields)
      → Keeps (Follows v paid gate) (emit c t payload)
  unfolding emit update modify get_run gets next_event ◌>>=◌ ◌>>◌
  Follows-emit t payload = record {
    at = λ m h.
        let r : RunState = record m.run { event_sequence = m.run.event_sequence + 1 } in
        record {
          at =
              append-Reach (record m { run = r }) _ _ (make_event (next_event r t payload))
                (sequence-make_event (next_event r t payload)) m.run.event_sequence refl h.at;
        };
  }

  pub Follows-transition :
      {paid gate : Bool} (n : Node) (t : EventType) (payload : Fields)
      → is_execute n ≡ false
      → Keeps (Follows v paid gate) (transition c n t payload)
  unfolding transition
  Follows-transition n t payload p = search (keeps_rules, Follows-move, Follows-emit, Follows-save)

  pub Follows-check_cancel : {paid gate : Bool} → Keeps (Follows v paid gate) (check_cancel c)
  unfolding check_cancel
  Follows-check_cancel = search (keeps_rules, Follows-get_run)

  pub Follows-raise_budget :
      {paid gate : Bool} (o : Option String) → Keeps (Follows v paid gate) (raise_budget c o)
  unfolding raise_budget
  Follows-raise_budget none = search keeps_rules
  Follows-raise_budget (some s) = search keeps_rules

  pub Follows-check_budgets : {paid gate : Bool} → Keeps (Follows v paid gate) (check_budgets c)
  unfolding check_budgets
  Follows-check_budgets =
      search (keeps_rules, Follows-get_run, Follows-external, Follows-raise_budget)

  pub Follows-spend_model : {paid gate : Bool} → Keeps (Follows v paid gate) (spend_model c)
  unfolding spend_model charge
  Follows-spend_model = search (keeps_rules, Follows-update, Follows-check_budgets)

  pub Follows-spend_delegation :
      {paid gate : Bool} → Keeps (Follows v paid gate) (spend_delegation c)
  unfolding spend_delegation charge
  Follows-spend_delegation = search (keeps_rules, Follows-update, Follows-check_budgets)
