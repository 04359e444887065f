-- ===== src/Orchestrator/Progress/Nodes.antt =====
-- Each step of the graph settles the run or moves it on.
use agent_workbench.Base.{Bool, true, false, ◌≡◌, refl, is_empty, ◌<◌, arith, List, [], ◌∷◌, String}
use agent_workbench.Base.Action.{pure, modify, gets, ◌>>=◌, ◌>>◌}
use agent_workbench.Base.Ends.{
  Ends, Met, Ends-pure, Ends-raise, Ends-if, Ends-if-false, Ends-bind, Ends-then,
}
use agent_workbench.Base.Keeps.{Leads, Keeps, Keeps-pure, Keeps-bind, keeps_rules, Leads-then}
use agent_workbench.Base.Json.{Fields}
use agent_workbench.Contracts.Events.{EventType}
use agent_workbench.Orchestrator.Clients.{Exn, Clients}
use agent_workbench.Orchestrator.Graph.Core.{Machine, Graph, update, get_run, transition}
use agent_workbench.Orchestrator.Graph.Steps.{
  conclude, do_classify, do_plan, do_resources, do_mcp_reads, do_delegate, do_correlate,
  do_findings,
}
use agent_workbench.Orchestrator.Graph.Gated.{
  propose_actions, do_propose, do_policy, pass_pause, ask_approval, do_approval_pause, do_execute,
  do_verify, do_complete, evaluate_actions,
}
use agent_workbench.Orchestrator.Progress.{
  rank, is_settled, needs_action, Place, place, IsAt, Rests, HasActions, Advanced,
}
use agent_workbench.Orchestrator.Progress.Rules.{
  On, On-get_run, On-update, On-save, On-external, On-emit, On-place, On-transition, skip,
  skip-bind, carry, keep, keep-bind, last,
}
use agent_workbench.Orchestrator.State.{
  RunState, Outcome, Node, Finding, ProposedAction, classify, plan, resources, mcp_reads,
  a2a_delegate, correlate, findings, propose, policy, approval_pause, execute_approved, verify,
  complete,
}

ruleset on_rules = (keeps_rules, On-get_run, On-update, On-save, On-external, On-emit)

module _ (c : Clients) {P : Machine c.World → Type 0} where
  -- A step that ends with an arrival at a node that needs no action.
  arrive :
      (f : RunState → RunState) (n : Node)
      → needs_action n ≡ false
      → ((r : RunState) → (f r).current_state ≡ n)
      → Leads P (On (IsAt n)) (update c f)
  arrive f n free moved = record {
    at = λ m h.
        (On-place c {A = λ _. Unit {0}} f (λ r _. record {
          at_node = moved r;
          proposals = λ needs. absurd (cc (free, needs));
        })).at
          m (record { at = tt });
  }

  arrive-transition :
      (n : Node) (t : EventType) (payload : Fields)
      → needs_action n ≡ false
      → Leads P (On (IsAt n)) (transition c n t payload)
  unfolding transition
  arrive-transition n t payload free =
      Leads-then _ _ (λ s h. h) (arrive _ n free (λ r. refl))
        (search (keeps_rules, On-emit, On-save))

  rest :
      (f : RunState → RunState)
      → ((r : RunState) → is_settled (f r).status ≡ true)
      → Leads P (On Rests) (update c f)
  rest f settled = record {
    at = λ m h. (On-place c {A = λ _. Unit {0}} f (λ r _. settled r)).at m (record { at = tt });
  }

  conclude-Rests : (o : Outcome) → Leads P (On Rests) (conclude c o)
  unfolding conclude is_settled
  conclude-Rests o = rest _ (λ r. refl)

module _ (c : Clients) where
  transition-Rests :
      (n : Node) (t : EventType) (payload : Fields) → Keeps (On Rests) (transition c n t payload)
  transition-Rests n t payload = On-transition c n t payload (λ r h. h)

  -- The end of a step at `n` that settled the run, and of one that goes on at `lower`.
  ends_at_rest :
      (n : Node)
      → Ends
          (On {World = c.World} Rests)
          (λ done. On (Advanced n done))
          (λ _ _. Unit {0})
          (pure {E = Exn} true)
  unfolding Advanced
  ends_at_rest n = Ends-pure true (λ s h. record { at = h.at })

  goes_on :
      (n lower : Node)
      → rank lower < rank n
      → Ends
          (On {World = c.World} (IsAt lower))
          (λ done. On (Advanced n done))
          (λ _ _. Unit {0})
          (pure {E = Exn} false)
  unfolding Advanced
  goes_on n lower below = Ends-pure false (λ s h. record { at = (lower, below, h.at) })

  abbrev pub Advances : Node → Graph c Bool → Type 0
  Advances n m = Ends (On (IsAt n)) (λ done. On (Advanced n done)) (λ _ _. Unit {0}) m

  pub do_plan-Advances : Advances plan (do_plan c >> pure false)
  unfolding do_plan needs_action rank
  do_plan-Advances =
      Ends-then _ _
        (skip _ _ (
          skip-bind _ _ (λ r.
            skip-bind _ _ (λ steps. skip _ _ (last _ (arrive-transition c resources _ _ refl))))))
        (goes_on plan resources (omega arith))

  pub do_resources-Advances : Advances resources (do_resources c >> pure false)
  unfolding do_resources needs_action rank
  do_resources-Advances =
      Ends-then _ _
        (skip-bind _ _ (λ r. skip _ _ (last _ (arrive-transition c mcp_reads _ _ refl))))
        (goes_on resources mcp_reads (omega arith))

  pub do_mcp_reads-Advances : Advances mcp_reads (do_mcp_reads c >> pure false)
  unfolding do_mcp_reads needs_action rank
  do_mcp_reads-Advances =
      Ends-then _ _
        (search (skip, skip-bind, last, arrive-transition c a2a_delegate _ _ refl) depth 30)
        (goes_on mcp_reads a2a_delegate (omega arith))

  pub do_delegate-Advances : Advances a2a_delegate (do_delegate c >> pure false)
  unfolding do_delegate needs_action rank
  do_delegate-Advances =
      Ends-then _ _
        (search (skip, skip-bind, last, arrive-transition c correlate _ _ refl) depth 30)
        (goes_on a2a_delegate correlate (omega arith))

  pub do_correlate-Advances : Advances correlate (do_correlate c >> pure false)
  unfolding do_correlate needs_action rank
  do_correlate-Advances =
      Ends-then _ _
        (skip-bind _ _ (λ r. skip-bind _ _ (λ said. skip _ _ (
          skip _ _ (
            carry _ _ (arrive c _ findings refl (λ r. refl))
              (last _ (search (keeps_rules, On-get_run, On-emit, On-save))))))))
        (goes_on correlate findings (omega arith))

  pub do_execute-Advances : Advances execute_approved (do_execute c >> pure false)
  unfolding do_execute needs_action rank
  do_execute-Advances =
      Ends-then _ _
        (skip-bind _ _ (λ r.
          skip _ _
            (skip _ _ (carry _ _ (arrive c _ verify refl (λ r. refl)) (last _ (On-save c))))))
        (goes_on execute_approved verify (omega arith))

  pub do_verify-Advances : Advances verify (do_verify c >> pure false)
  unfolding do_verify needs_action rank
  do_verify-Advances =
      Ends-then _ _ (search (skip-bind, last, arrive-transition c complete _ _ refl) depth 30)
        (goes_on verify complete (omega arith))

  pub do_complete-Advances : Advances complete (do_complete c >> pure true)
  unfolding do_complete is_settled
  do_complete-Advances =
      Ends-then _ _
        (carry _ _ (rest c _ (λ r. refl))
          (last _ (search (keeps_rules, On-get_run, On-emit, On-save))))
        (ends_at_rest complete)

  pub do_classify-Advances : Advances classify (do_classify c)
  unfolding do_classify needs_action rank is_settled Met ◌>>◌
  do_classify-Advances = skip _ _ (
      skip-bind _ _ (λ r. skip-bind _ _ (λ found. skip _ _ (
        carry _ _ (arrive-transition c plan _ _ refl) (
          Ends-if _ _ _
            (carry _ _ (conclude-Rests c Outcome.clarify) (
              search
                (
                  carry,
                  keep,
                  keep-bind,
                  keeps_rules,
                  On-update,
                  On-get_run,
                  On-emit,
                  transition-Rests,
                  ends_at_rest classify,
                )
                depth 30))
            (goes_on classify plan (omega arith)))))))

  pub do_findings-Advances : Advances findings (do_findings c)
  unfolding do_findings needs_action rank is_settled Met ◌>>◌
  do_findings-Advances = skip-bind _ _ (λ r. skip-bind _ _ (λ raw. skip _ _ (
      skip _ _ (
        skip _ _ (
          skip _ _ (
            Ends-if _ _ _
              (carry _ _ (conclude-Rests c Outcome.more_info) (
                search
                  (
                    carry,
                    keep,
                    keep-bind,
                    keeps_rules,
                    On-update,
                    On-get_run,
                    On-emit,
                    transition-Rests,
                    ends_at_rest findings,
                  )
                  depth 30))
              (carry _ _ (arrive c _ propose refl (λ r. refl))
                (carry _ _ (On-save c) (goes_on findings propose (omega arith))))))))))

  -- A proposal has at least the ticket.
  propose_actions-nonempty :
      {P : Machine c.World → Type 0} (r : RunState) (fs : List Finding)
      → Ends P (λ actions _. is_empty actions ≡ false) (λ _ _. Unit {0}) (propose_actions c r fs)
  unfolding propose_actions
  propose_actions-nonempty r [] = Ends-raise _ (λ s h. tt)
  propose_actions-nonempty r (f ∷ fs) = skip-bind _ _ (λ ticket.
      Ends-if _ _ _ (skip-bind _ _ (λ rollback. Ends-pure _ (λ s h. refl)))
        (Ends-pure _ (λ s h. refl)))

  proposed :
      (actions : List ProposedAction)
      → Leads
          (λ _. is_empty actions ≡ false)
          (On HasActions)
          (update c (λ r. record r { proposed_actions = actions }))
  unfolding update modify
  proposed actions = record { at = λ m h. record { at = h } }

  pub do_propose-Advances : Advances propose (do_propose c >> pure false)
  unfolding do_propose needs_action rank
  do_propose-Advances =
      Ends-then _ _
        (skip-bind _ _ (λ r. Ends-bind _ _ (propose_actions-nonempty r r.findings) (λ actions.
          carry _ _ (proposed actions) (
            last _ (
              On-transition c {A = HasActions} policy _ _
                (λ r h. record { at_node = refl; proposals = λ _. h }))))))
        (goes_on propose policy (omega arith))

  evaluate_actions-On :
      {B : Place → Type 0} (env : String) (actions : List ProposedAction)
      → Keeps (On B) (evaluate_actions c env actions)
  unfolding evaluate_actions
  evaluate_actions-On env [] = Keeps-pure []
  evaluate_actions-On env (a ∷ rows) =
      Keeps-bind _ _ (On-external c _)
        (λ reply. Keeps-bind _ _ (evaluate_actions-On env rows) (λ rest. Keeps-pure _))

  to_pause :
      (r : RunState)
      → HasActions (place r)
      → IsAt approval_pause (place (record r { current_state = approval_pause }))
  to_pause r h = record { at_node = refl; proposals = λ _. h }

  -- The policy step, from actions that are there.
  policy_part :
      Ends (On HasActions) (λ done. On (Advanced policy done)) (λ _ _. Unit {0}) (do_policy c)
  unfolding do_policy rank is_settled Met ◌>>◌
  policy_part = keep-bind _ _ (On-get_run c) (λ r.
      keep-bind _ _ (evaluate_actions-On _ r.proposed_actions) (λ decisions.
        keep _ _ (On-update c _ (λ r. refl)) (
          keep _ _ (On-save c) (
            Ends-if _ _ _
              (carry _ _ (On-place c _ to_pause)
                (keep _ _ (On-save c) (goes_on policy approval_pause (omega arith))))
              (carry _ _ (conclude-Rests c Outcome.denied) (
                search
                  (keep, keep-bind, keeps_rules, On-emit, transition-Rests, ends_at_rest policy)
                  depth 30))))))

  pub do_policy-Advances : Advances policy (do_policy c)
  unfolding needs_action
  do_policy-Advances = record { at = λ m h. policy_part.at m (record { at = h.at.proposals refl }) }

  ask_approval-Rests :
      Ends (On {World = c.World} HasActions) (λ _. On Rests) (λ _ _. Unit {0}) (ask_approval c)
  unfolding ask_approval is_settled
  ask_approval-Rests =
      carry _ _ (rest c _ (λ r. refl)) (last _ (search (keeps_rules, On-get_run, On-emit, On-save)))

  -- The pause, from actions that are there.
  pause_part :
      Ends (On {World = c.World} HasActions) (λ _. On Rests) (λ _ _. Unit {0}) (do_approval_pause c)
  unfolding do_approval_pause get_run gets ◌>>=◌
  pause_part = record {
    at = λ m h.
        (Ends-if-false (is_empty m.run.proposed_actions) (pass_pause c) (ask_approval c) h.at
            ask_approval-Rests).at
          m h;
  }

  pub do_approval_pause-Advances : Advances approval_pause (do_approval_pause c >> pure true)
  unfolding needs_action
  do_approval_pause-Advances = record {
    at = λ m h.
        (Ends-then _ _ pause_part (ends_at_rest approval_pause)).at m
          (record { at = h.at.proposals refl });
  }
