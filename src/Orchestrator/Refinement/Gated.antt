-- ===== src/Orchestrator/Refinement/Gated.antt =====
-- The steps of Graph/Gated follow the step relation; the execution needs the gate open.
use agent_workbench.Base.{String, refl, Bool, true, false, List, [], ◌∷◌}
use agent_workbench.Base.Keeps.{
  Leads, Keeps, Keeps-pure, Keeps-raise, Keeps-bind, Keeps-then, Keeps-when, Leads-bind, Leads-then,
  Leads-catch, Leads-raise_if,
}
use agent_workbench.Orchestrator.Clients.{Clients}
use agent_workbench.Orchestrator.Graph.Gated.{
  propose_actions, do_propose, evaluate_actions, do_policy, do_approval_pause, perform,
  execute_action, execute_actions, do_execute, do_verify, do_complete,
}
use agent_workbench.Orchestrator.Refinement.{
  Follows, Follows-external, Follows-from_result, Follows-moved, Follows-emit, Follows-check_cancel,
}
use agent_workbench.Orchestrator.Refinement.Calls.{
  Follows-spend_tool, Follows-invoke_checked, Follows-bind_result, Follows-forgo,
}
use agent_workbench.Orchestrator.Refinement.Steps.{follows_rules, Follows-conclude}
use agent_workbench.Orchestrator.Registry.{validate_tool_call}
use agent_workbench.Orchestrator.Registry.Gate.{validate_tool_call-catalog_get}
use agent_workbench.Orchestrator.State.{RunState, RunStatus, Finding, verify, ProposedAction}
use agent_workbench.Orchestrator.Trace.{View, IsSafe, writes}

module _ (c : Clients) {v : View} where
  module _ {gate : Bool} where
    Follows-propose_actions :
        (r : RunState) (fs : List Finding) → Keeps (Follows v false gate) (propose_actions c r fs)
    unfolding propose_actions
    Follows-propose_actions r [] = Keeps-raise _
    Follows-propose_actions r (f ∷ fs) =
        Keeps-bind _ _ (Follows-from_result c _) (λ ticket. search follows_rules)

    pub Follows-do_propose : Keeps (Follows v false gate) (do_propose c)
    unfolding do_propose
    Follows-do_propose = search (follows_rules, Follows-propose_actions) depth 30

    Follows-evaluate_actions :
        (env : String) (actions : List ProposedAction)
        → Keeps (Follows v false gate) (evaluate_actions c env actions)
    unfolding evaluate_actions
    Follows-evaluate_actions env [] = Keeps-pure []
    Follows-evaluate_actions env (a ∷ rows) =
        Keeps-bind _ _ (Follows-external c _)
          (λ reply. Keeps-bind _ _ (Follows-evaluate_actions env rows) (λ rest. Keeps-pure _))

    pub Follows-do_policy : Keeps (Follows v false gate) (do_policy c)
    unfolding do_policy
    Follows-do_policy = search (follows_rules, Follows-evaluate_actions, Follows-conclude) depth 30

    pub Follows-do_approval_pause : Keeps (Follows v false gate) (do_approval_pause c)
    unfolding do_approval_pause
    Follows-do_approval_pause = search follows_rules depth 30

    pub Follows-do_verify : Keeps (Follows v false gate) (do_verify c)
    unfolding do_verify
    Follows-do_verify = search follows_rules depth 30

    pub Follows-do_complete : Keeps (Follows v false gate) (do_complete c)
    unfolding do_complete
    Follows-do_complete = search follows_rules depth 30

  Follows-perform :
      (a : ProposedAction)
      → IsSafe a.tool_name
      → Leads (Follows v true true) (Follows v false true) (perform c a)
  unfolding perform
  Follows-perform a safe =
      Leads-catch _ _
        (Leads-bind _ _ (λ s h. h)
          (Follows-invoke_checked c a.tool_name a.input
            (λ w paid gate. writes w a.tool_name a.input _ paid gate safe))
          (λ out. Follows-emit c _ _))
        (λ e. search follows_rules)

  Follows-execute_action : (a : ProposedAction) → Keeps (Follows v false true) (execute_action c a)
  unfolding execute_action
  Follows-execute_action a =
      Follows-bind_result c (validate_tool_call c.python a.tool_name a.input) _ (λ spec valid.
        Leads-raise_if _ _ _ (λ s h. h)
          (λ safe. Keeps-then _ _ (Follows-check_cancel c) (
            Follows-spend_tool c _ (
              Leads-then _ _ (λ m. Follows-forgo c m) (Follows-emit c _ _)
                (Follows-perform a (record {
                  spec = spec;
                  found = validate_tool_call-catalog_get c.python a.tool_name a.input spec valid;
                  is_safe = safe;
                }))))))

  Follows-execute_actions :
      (ids : List String) (rows : List ProposedAction)
      → Keeps (Follows v false true) (execute_actions c ids rows)
  unfolding execute_actions
  Follows-execute_actions ids [] = Keeps-pure tt
  Follows-execute_actions ids (a ∷ rows) =
      Keeps-then _ _ (Keeps-when _ _ (Follows-execute_action a)) (Follows-execute_actions ids rows)

  pub Follows-do_execute : Keeps (Follows v false true) (do_execute c)
  unfolding do_execute
  Follows-do_execute =
      search
        (
          follows_rules,
          Follows-execute_actions,
          Follows-moved c (λ r. record r { current_state = verify; status = RunStatus.running })
              verify refl (λ r. refl),
        )
        depth 30
