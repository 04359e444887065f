-- ===== src/Orchestrator/Approval/Gate.antt =====
-- What the approval gate guarantees of an execution, and of a refusal.
use agent_workbench.Base.{
  ◌≢◌, none, some, map, false, not, ◌⊎◌, inl, inr, Bool, ℕ, String, ◌≡◌, refl, true, Option, List,
  [], ◌∷◌, ◌==◌, string_eq, any, All,
}
use agent_workbench.Base.Action.{pure, raise, gets, modify, raise_if, ◌>>=◌, ◌>>◌}
use agent_workbench.Base.Json.{Fields}
use agent_workbench.Base.Keeps.{
  Keeps, Leads-then, Keeps-pure, Keeps-gets, Keeps-modify, Keeps-bind, Keeps-then,
}
use agent_workbench.Contracts.Events.{AgentEvent, EventType}
use agent_workbench.Orchestrator.Approval.{IgnoresEvents, on-do_execute, on-resume_declined}
use agent_workbench.Orchestrator.Clients.{Clients, Exn}
use agent_workbench.Orchestrator.Graph.Core.{
  Machine, Effect, invoked, update, effect, get_run, save, append, emit, transition,
}
use agent_workbench.Orchestrator.Graph.Calls.{mcp_timeout_for}
use agent_workbench.Orchestrator.Graph.Gated.{approved_ids, do_execute}
use agent_workbench.Orchestrator.Graph.Run.{
  awaits_approval, decide_entry, resume_declined, resume_decided, resume_after_approval,
}
use agent_workbench.Orchestrator.Graph.Steps.{conclude}
use agent_workbench.Orchestrator.State.{
  ProposedAction, ApprovalDecision, ApprovalEntry, RunState, RunStatus, Outcome, Node, approved,
  rejected, expired, pending,
}
use agent_workbench.Orchestrator.Trace.Laws.{AllCalls, invocations}

-- An action of the run with an approved row, as a call of its tool on its own input.
pub data Approved (ids : List String) : List ProposedAction → String → Fields → Type 0 where
  first :
      (a : ProposedAction) (rows : List ProposedAction)
      → any (λ i. i == a.action_id) ids ≡ true
      → Approved ids (a ∷ rows) a.tool_name a.input
  later :
      {a : ProposedAction} {rows : List ProposedAction} {name : String} {args : Fields}
      → Approved ids rows name args
      → Approved ids (a ∷ rows) name args

AllCalls-IgnoresEvents : (Q : String → Fields → Type 0) → IgnoresEvents (AllCalls Q)
unfolding AllCalls
AllCalls-IgnoresEvents Q = record { at_saved = λ r es h. h; at_appended = λ e es h. h }

invocations-IgnoresEvents : (n : ℕ) → IgnoresEvents (λ es. invocations es ≡ n)
unfolding invocations
invocations-IgnoresEvents n = record { at_saved = λ r es h. h; at_appended = λ e es h. h }

harmless_calls :
    (Q : String → Fields → Type 0) (ids : List String) (rows : List ProposedAction)
    → ((name : String) (args : Fields) → Approved ids rows name args → Q name args)
    → All
        (λ a.
          any (λ i. i == a.action_id) ids ≡ true
          → (es : List Effect) → AllCalls Q es
          → AllCalls Q (invoked a.tool_name a.input (mcp_timeout_for a.tool_name) ∷ es))
        rows
unfolding AllCalls
harmless_calls Q ids [] h = tt
harmless_calls Q ids (a ∷ rows) h = (
  λ approved es calls. (h a.tool_name a.input (first a rows approved), calls),
  harmless_calls Q ids rows (λ name args p. h name args (later p)),
)

module _ (c : Clients) (m : Machine c.World) where
  -- An execution calls nothing but tools of the run's own proposals, each on the proposed input, and
  -- each with an approved row of its action.
  pub do_execute-Approved :
      AllCalls (Approved (approved_ids m.run.approvals) m.run.proposed_actions) m.effects
      → AllCalls
          (Approved (approved_ids m.run.approvals) m.run.proposed_actions)
          (do_execute c m).1.effects
  do_execute-Approved h =
      on-do_execute c (AllCalls-IgnoresEvents _) m
        (harmless_calls _ (approved_ids m.run.approvals) m.run.proposed_actions (λ name args p. p))
        h

-- What a decision other than an approval leaves: a run that is completed as rejected, with the
-- decision in every one of its approvals.
abbrev pub Closed : ApprovalDecision → RunState → Type 0
Closed d r =
    (r.status ≡ RunStatus.completed)
    × (r.outcome ≡ some Outcome.rejected)
    × All (λ a. a.decision ≡ d) r.approvals

module _ (c : Clients) (d : ApprovalDecision) where
  All-decided :
      (approver : String) (reason : Option String) (rows : List ApprovalEntry)
      → All (λ a. a.decision ≡ d) (map (decide_entry c d approver reason) rows)
  All-decided approver reason [] = tt
  All-decided approver reason (a ∷ rows) = (refl, All-decided approver reason rows)

  abbrev Ended : Machine c.World → Type 0
  Ended m = Closed d m.run

  Ended-append : (o : Option AgentEvent) → Keeps Ended (append c o)
  unfolding append effect modify raise
  Ended-append none = record { at = λ m h. h }
  Ended-append (some e) = record { at = λ m h. h }

  Ended-emit : (t : EventType) (payload : Fields) → Keeps Ended (emit c t payload)
  unfolding emit update get_run
  Ended-emit t payload =
      Keeps-then _ _ (Keeps-modify _ (λ m h. h))
        (Keeps-bind _ _ (Keeps-gets _) (λ r. Ended-append _))

  Ended-save : Keeps Ended (save c)
  unfolding save
  Ended-save = record { at = λ m h. h }

  Ended-transition :
      (next : Node) (t : EventType) (payload : Fields) → Keeps Ended (transition c next t payload)
  unfolding transition update
  Ended-transition next t payload =
      Keeps-then _ _ (Keeps-modify _ (λ m h. h)) (Keeps-then _ _ (Ended-emit t _) Ended-save)

  resume_declined-Ended :
      (approver : String) (reason : Option String) (m : Machine c.World)
      → Ended (resume_declined c d approver reason m).1
  unfolding resume_declined update conclude modify ◌>>◌ ◌>>=◌
  resume_declined-Ended approver reason m =
      (Keeps-then _ _ (Ended-emit _ _) (Ended-transition _ _ _)).at _
        (refl, refl, All-decided approver reason m.run.approvals)

-- After a decision `d` that is no approval: no tool was invoked, and the decision was refused, which
-- changes nothing, or the run is closed with it.
abbrev pub Declined : {World : Type 0} → ApprovalDecision → Machine World → Machine World → Type 0
Declined d m out =
    (invocations out.effects ≡ invocations m.effects) × ((out ≡ m) ⊎ Closed d out.run)

module _ (c : Clients) (m : Machine c.World) (fuel : ℕ) (approver : String)
    (reason : Option String) where
  declined :
      (d : ApprovalDecision) → Declined d m ((resume_declined c d approver reason >> pure true) m).1
  declined d =
      let none_invoked =
        (Keeps-then _ _
            (on-resume_declined c (invocations-IgnoresEvents (invocations m.effects)) d approver
              reason)
            (Keeps-pure true)).at
          m (record { at = refl }) in
      (
        none_invoked.at,
        inr (
            (Leads-then {Q = Ended c d} {P = λ x. x ≡ m} (resume_declined c d approver reason)
                (pure true) (λ t h. h)
                (record { at = λ t h. resume_declined-Ended c d approver reason t })
                (Keeps-pure true)).at
              m refl),
      )

  decided-Declined :
      (d : ApprovalDecision)
      → d ≢ approved
      → Declined d m (resume_decided c fuel d approver reason m).1
  unfolding resume_decided raise
  decided-Declined approved other = absurd (other refl)
  decided-Declined pending other = (refl, inl refl)
  decided-Declined rejected other = declined rejected
  decided-Declined expired other = declined expired

  awaited-Declined :
      (b : Bool) (e : Exn) (d : ApprovalDecision)
      → d ≢ approved
      → Declined d m ((raise_if b e >> resume_decided c fuel d approver reason) m).1
  unfolding raise_if ◌>>◌ ◌>>=◌
  awaited-Declined true e d other = (refl, inl refl)
  awaited-Declined false e d other = decided-Declined d other

  -- A decision that is no approval invokes no tool, whatever the run: it is refused, which changes
  -- nothing, or the run is completed as rejected, with the decision in every one of its approvals.
  pub resume_after_approval-Declined :
      (d : ApprovalDecision)
      → d ≢ approved
      → Declined d m (resume_after_approval c fuel d approver reason m).1
  unfolding resume_after_approval get_run gets ◌>>=◌
  resume_after_approval-Declined d other =
      awaited-Declined (not (awaits_approval c m.run)) _ d other
