-- ===== src/Orchestrator/Approval.antt =====
-- The approval gate: what an execution invokes, and what a refusal leaves undone.
pub mod Gate
use agent_workbench.Base.{
  ℕ, String, ◌≡◌, refl, sym, Bool, true, false, not, Bool-cases, inl, inr, Option, none, some, List,
  [], ◌∷◌, ◌==◌, string_eq, any, All,
}
use agent_workbench.Base.Action.{
  Action, Result, returned, raised, pure, raise, gets, modify, when, raise_if, ◌>>=◌, ◌>>◌,
}
use agent_workbench.Base.Json.{Fields}
use agent_workbench.Base.Keeps.{
  Leads, Keeps, Keeps-pure, Keeps-then, Keeps-bind, Keeps-raise_if, Leads-catch, keeps_rules,
}
use agent_workbench.Contracts.Events.{EventType, AgentEvent}
use agent_workbench.Orchestrator.Clients.{Exn, Clients}
use agent_workbench.Orchestrator.Graph.Calls.{invoke_checked, mcp_timeout_for}
use agent_workbench.Orchestrator.Graph.Core.{
  Machine, Graph, Effect, invoked, update, effect, get_run, external, from_result, save, append,
  emit, transition, check_cancel, check_budgets, raise_budget, charge, spend_tool,
}
use agent_workbench.Orchestrator.Graph.Gated.{
  approved_ids, perform, execute_action, execute_actions, do_execute,
}
use agent_workbench.Orchestrator.Graph.Run.{resume_declined}
use agent_workbench.Orchestrator.Graph.Steps.{conclude}
use agent_workbench.Orchestrator.State.{RunState, ProposedAction, ApprovalDecision, Outcome, Node}
use agent_workbench.Orchestrator.Trace.Laws.{AllCalls, invocations}

-- A condition on the effects.
pub record OnEffects {World : Type 0} (P : List Effect → Type 0) (m : Machine World) : Type 0 where
  pub at : P m.effects

-- Saving and appending events is no matter to it.
pub record IgnoresEvents (P : List Effect → Type 0) : Type 0 where
  pub at_saved : (r : RunState) (es : List Effect) → P es → P (Effect.saved r ∷ es)
  pub at_appended : (e : AgentEvent) (es : List Effect) → P es → P (Effect.appended e ∷ es)

module _ (c : Clients) {P : List Effect → Type 0} (ignores : IgnoresEvents P) where
  on-update : (f : RunState → RunState) → Keeps (OnEffects P) (update c f)
  unfolding update modify
  on-update f = record { at = λ m h. record { at = h.at } }

  on-get_run : Keeps (OnEffects P) (get_run c)
  unfolding get_run gets
  on-get_run = record { at = λ m h. record { at = h.at } }

  on-external :
      {A : Type 0} (f : c.World → Result Exn A × c.World) → Keeps (OnEffects P) (external c f)
  unfolding external
  on-external f = record { at = λ m h. record { at = h.at } }

  on-from_result : {A : Type 0} (r : Result Exn A) → Keeps (OnEffects P) (from_result c r)
  unfolding from_result
  on-from_result r = record { at = λ m h. h }

  on-save : Keeps (OnEffects P) (save c)
  unfolding save
  on-save = record { at = λ m h. record { at = ignores.at_saved m.run m.effects h.at } }

  on-append : (o : Option AgentEvent) → Keeps (OnEffects P) (append c o)
  unfolding append effect modify raise
  on-append none = record { at = λ m h. h }
  on-append (some e) = record { at = λ m h. record { at = ignores.at_appended e m.effects h.at } }

  on-emit : (t : EventType) (payload : Fields) → Keeps (OnEffects P) (emit c t payload)
  unfolding emit
  on-emit t payload = search (keeps_rules, on-update, on-get_run, on-append)

  on-conclude : (o : Outcome) → Keeps (OnEffects P) (conclude c o)
  unfolding conclude
  on-conclude o = on-update _

  pub on-resume_declined :
      (d : ApprovalDecision) (approver : String) (reason : Option String)
      → Keeps (OnEffects P) (resume_declined c d approver reason)
  unfolding resume_declined transition
  on-resume_declined d approver reason =
      search (keeps_rules, on-update, on-emit, on-save, on-conclude) depth 20

  on-check_cancel : Keeps (OnEffects P) (check_cancel c)
  unfolding check_cancel
  on-check_cancel = search (keeps_rules, on-get_run)

  on-raise_budget : (o : Option String) → Keeps (OnEffects P) (raise_budget c o)
  unfolding raise_budget
  on-raise_budget none = search keeps_rules
  on-raise_budget (some s) = search keeps_rules

  on-spend_tool : Keeps (OnEffects P) (spend_tool c)
  unfolding spend_tool charge check_budgets
  on-spend_tool = search (keeps_rules, on-update, on-get_run, on-external, on-raise_budget) depth 20

  -- An action whose call keeps the condition.
  abbrev pub Harmless : ProposedAction → Type 0
  Harmless a =
      (es : List Effect) → P es → P (invoked a.tool_name a.input (mcp_timeout_for a.tool_name) ∷ es)

  on-invoke_checked :
      (a : ProposedAction) → Harmless a → Keeps (OnEffects P) (invoke_checked c a.tool_name a.input)
  unfolding invoke_checked effect modify
  on-invoke_checked a harmless =
      Keeps-then _ _ (record { at = λ m h. record { at = harmless m.effects h.at } })
        (search (keeps_rules, on-external, on-from_result))

  on-perform : (a : ProposedAction) → Harmless a → Keeps (OnEffects P) (perform c a)
  unfolding perform
  on-perform a harmless =
      Leads-catch _ _ (Keeps-bind _ _ (on-invoke_checked a harmless) (λ out. on-emit _ _))
        (λ e. Keeps-then _ _ (on-emit _ _) (on-update _))

  on-execute_action : (a : ProposedAction) → Harmless a → Keeps (OnEffects P) (execute_action c a)
  unfolding execute_action
  on-execute_action a harmless = Keeps-bind _ _ (on-from_result _) (λ spec.
      Keeps-then _ _ (Keeps-raise_if _ _) (
        Keeps-then _ _ on-check_cancel
          (Keeps-then _ _ on-spend_tool (Keeps-then _ _ (on-emit _ _) (on-perform a harmless)))))

  -- The actions that are executed are harmless.
  abbrev pub AllHarmless : List String → List ProposedAction → Type 0
  AllHarmless ids = All (λ a. any (λ i. i == a.action_id) ids ≡ true → Harmless a)

  on-approved :
      (b : Bool) (a : ProposedAction)
      → (b ≡ true → Harmless a)
      → Keeps (OnEffects P) (when b (execute_action c a))
  unfolding when
  on-approved true a harmless = on-execute_action a (harmless refl)
  on-approved false a harmless = Keeps-pure tt

  on-execute_actions :
      (ids : List String) (rows : List ProposedAction)
      → AllHarmless ids rows
      → Keeps (OnEffects P) (execute_actions c ids rows)
  unfolding execute_actions
  on-execute_actions ids [] h = Keeps-pure tt
  on-execute_actions ids (a ∷ rows) h =
      Keeps-then _ _ (on-approved (any (λ i. i == a.action_id) ids) a h.0)
        (on-execute_actions ids rows h.1)

  pub on-do_execute :
      (m : Machine c.World)
      → AllHarmless (approved_ids m.run.approvals) m.run.proposed_actions
      → P m.effects
      → P (do_execute c m).1.effects
  unfolding do_execute get_run gets ◌>>=◌
  on-do_execute m harmless h =
      ((Keeps-then _ _ (Keeps-raise_if _ _) (
          Keeps-then _ _ (on-execute_actions _ _ harmless)
            (Keeps-then _ _ (on-update _) on-save))).at
        m (record { at = h })).at
