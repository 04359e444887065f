-- ===== src/Orchestrator/Refinement/Run.antt =====
-- The driver follows the step relation. The execution opens the gate, at its node alone.
use agent_workbench.Base.{ℕ, zero, suc, String, ◌≡◌, refl, ap, true, false, Option}
use agent_workbench.Base.Action.{raise, ◌>>=◌, gets}
use agent_workbench.Base.Keeps.{Keeps, Keeps-pure, Keeps-if, Keeps-bind, Keeps-then, Leads-catch}
use agent_workbench.Orchestrator.Clients.{
  Exn, run_cancelled, budget_exceeded, timeout, failure, Clients,
}
use agent_workbench.Orchestrator.Graph.Core.{Machine, get_run}
use agent_workbench.Orchestrator.Graph.Run.{
  step, round, loop, fail, send_cancel, suppress, handle, start, run, resume_declined,
}
use agent_workbench.Orchestrator.Refinement.{Follows, Follows-check_cancel, Follows-check_budgets}
use agent_workbench.Orchestrator.Refinement.Steps.{
  follows_rules, Follows-conclude, Follows-do_classify, Follows-do_plan, Follows-do_resources,
  Follows-do_mcp_reads, Follows-do_delegate, Follows-do_correlate, Follows-do_findings,
}
use agent_workbench.Orchestrator.Refinement.Gated.{
  Follows-do_propose, Follows-do_policy, Follows-do_approval_pause, Follows-do_execute,
  Follows-do_verify, Follows-do_complete,
}
use agent_workbench.Orchestrator.State.{
  Node, ErrorCode, ApprovalDecision, classify, plan, resources, mcp_reads, a2a_delegate, correlate,
  findings, propose, policy, approval_pause, execute_approved, verify, complete, unknown,
}
use agent_workbench.Orchestrator.Trace.{View, is_execute, opens, closes, cancels, next}

module _ (c : Clients) {v : View} where
  -- The step of the node that the machine is at.
  Follows-step :
      (n : Node) (m : Machine c.World)
      → Follows v false false m
      → m.run.current_state ≡ n
      → Follows v false false (step c n m).1
  unfolding step raise
  Follows-step classify m h p = (Follows-do_classify c).at m h
  Follows-step plan m h p = (Keeps-then _ _ (Follows-do_plan c) (Keeps-pure false)).at m h
  Follows-step resources m h p = (Keeps-then _ _ (Follows-do_resources c) (Keeps-pure false)).at m h
  Follows-step mcp_reads m h p = (Keeps-then _ _ (Follows-do_mcp_reads c) (Keeps-pure false)).at m h
  Follows-step a2a_delegate m h p =
      (Keeps-then _ _ (Follows-do_delegate c) (Keeps-pure false)).at m h
  Follows-step correlate m h p = (Keeps-then _ _ (Follows-do_correlate c) (Keeps-pure false)).at m h
  Follows-step findings m h p = (Follows-do_findings c).at m h
  Follows-step propose m h p = (Keeps-then _ _ (Follows-do_propose c) (Keeps-pure false)).at m h
  Follows-step policy m h p = (Follows-do_policy c).at m h
  Follows-step approval_pause m h p =
      (Keeps-then _ _ (Follows-do_approval_pause c) (Keeps-pure true)).at m h
  Follows-step execute_approved m h p = record {
    at =
        next
          ((Keeps-then _ _ (Follows-do_execute c) (Keeps-pure false)).at m
            (record { at = next h.at (opens _ (ap is_execute p)) })).at
          (closes _);
  }
  Follows-step verify m h p = (Keeps-then _ _ (Follows-do_verify c) (Keeps-pure false)).at m h
  Follows-step complete m h p = (Keeps-then _ _ (Follows-do_complete c) (Keeps-pure true)).at m h
  Follows-step (unknown s) m h p = h

  Follows-dispatch : Keeps (Follows v false false) (get_run c >>= λ r. step c r.current_state)
  unfolding get_run gets ◌>>=◌
  Follows-dispatch = record { at = λ m h. Follows-step m.run.current_state m h refl }

  Follows-round : Keeps (Follows v false false) (round c)
  unfolding round
  Follows-round =
      Keeps-then _ _ (Follows-check_cancel c)
        (Keeps-then _ _ (Follows-check_budgets c) Follows-dispatch)

  Follows-loop : (fuel : ℕ) → Keeps (Follows v false false) (loop c fuel)
  unfolding loop
  Follows-loop zero = Keeps-pure false
  Follows-loop (suc fuel) =
      Keeps-bind _ _ Follows-round (λ done. Keeps-if done _ _ (Keeps-pure true) (Follows-loop fuel))

  Follows-send_cancel : Keeps (Follows v false false) (send_cancel c)
  unfolding send_cancel
  Follows-send_cancel = record { at = λ m h. record { at = next h.at (cancels _ _) } }

  Follows-fail :
      (code : ErrorCode) (message : String) → Keeps (Follows v false false) (fail c code message)
  unfolding fail
  Follows-fail code message = search follows_rules

  Follows-handle : (e : Exn) → Keeps (Follows v false false) (handle c e)
  unfolding handle suppress
  Follows-handle run_cancelled = search (follows_rules, Follows-send_cancel)
  Follows-handle (budget_exceeded s) = search (follows_rules, Follows-fail)
  Follows-handle (timeout s t) = search (follows_rules, Follows-fail) depth 20
  Follows-handle (failure s t) = search (follows_rules, Follows-fail) depth 20

  Follows-start : Keeps (Follows v false false) (start c)
  unfolding start
  Follows-start = search follows_rules depth 20

  pub Follows-run : (fuel : ℕ) → Keeps (Follows v false false) (run c fuel)
  unfolding run
  Follows-run fuel = Keeps-then _ _ Follows-start (
      Leads-catch _ _ (Follows-loop fuel)
        (λ e. Keeps-then _ _ (Follows-handle e) (Keeps-pure true)))

  pub Follows-resume_declined :
      (d : ApprovalDecision) (approver : String) (reason : Option String)
      → Keeps (Follows v false false) (resume_declined c d approver reason)
  unfolding resume_declined
  Follows-resume_declined d approver reason = search (follows_rules, Follows-conclude) depth 20
