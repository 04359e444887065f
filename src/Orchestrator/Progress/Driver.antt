-- ===== src/Orchestrator/Progress/Driver.antt =====
-- The driver ends by itself, in a settled run.
use agent_workbench.Base.{
  ℕ, zero, suc, ◌<◌, String, Bool, true, false, ◌≡◌, refl, sym, subst, Option, none, some, arith,
  if◌then◌else◌, is_empty,
}
use agent_workbench.Base.Action.{pure, gets, ◌>>=◌}
use agent_workbench.Base.Ends.{
  Ends, Met, MetPair, Ends-catch, Ends-pure, Ends-raise, Ends-bind, Ends-then, Ends-Leads,
}
use agent_workbench.Base.Keeps.{Leads, Keeps, Keeps-bind, Keeps-then, Keeps-when, keeps_rules}
use agent_workbench.Orchestrator.Clients.{Clients}
use agent_workbench.Orchestrator.Graph.Core.{
  Machine, get_run, check_cancel, check_budgets, raise_budget,
}
use agent_workbench.Orchestrator.Graph.Run.{step, round, loop, start, run}
use agent_workbench.Orchestrator.Progress.{rank, needs_action, Place, IsAt, Rests, Advanced}
use agent_workbench.Orchestrator.Progress.Rules.{
  On, On-get_run, On-external, On-place, On-transition, keep,
}
use agent_workbench.Orchestrator.Progress.Handlers.{
  IsRefusal, Calm-start, Calm-handle, handle-Rests,
}
use agent_workbench.Orchestrator.Progress.Nodes.{
  do_classify-Advances, do_plan-Advances, do_resources-Advances, do_mcp_reads-Advances,
  do_delegate-Advances, do_correlate-Advances, do_findings-Advances, do_propose-Advances,
  do_policy-Advances, do_approval_pause-Advances, do_execute-Advances, do_verify-Advances,
  do_complete-Advances,
}
use agent_workbench.Orchestrator.State.{
  Node, classify, plan, resources, mcp_reads, a2a_delegate, correlate, findings, propose, policy,
  approval_pause, execute_approved, verify, complete, unknown,
}

rank-bound : (fuel : ℕ) (n : Node) → 12 < fuel → rank n < fuel
unfolding rank
rank-bound fuel classify h = omega arith
rank-bound fuel plan h = omega arith
rank-bound fuel resources h = omega arith
rank-bound fuel mcp_reads h = omega arith
rank-bound fuel a2a_delegate h = omega arith
rank-bound fuel correlate h = omega arith
rank-bound fuel findings h = omega arith
rank-bound fuel propose h = omega arith
rank-bound fuel policy h = omega arith
rank-bound fuel approval_pause h = omega arith
rank-bound fuel execute_approved h = omega arith
rank-bound fuel verify h = omega arith
rank-bound fuel complete h = omega arith
rank-bound fuel (unknown s) h = omega arith

module _ (c : Clients) where
  step-Advances :
      (n : Node) → Ends (On (IsAt n)) (λ done. On (Advanced n done)) (λ _ _. Unit {0}) (step c n)
  unfolding step
  step-Advances classify = do_classify-Advances c
  step-Advances plan = do_plan-Advances c
  step-Advances resources = do_resources-Advances c
  step-Advances mcp_reads = do_mcp_reads-Advances c
  step-Advances a2a_delegate = do_delegate-Advances c
  step-Advances correlate = do_correlate-Advances c
  step-Advances findings = do_findings-Advances c
  step-Advances propose = do_propose-Advances c
  step-Advances policy = do_policy-Advances c
  step-Advances approval_pause = do_approval_pause-Advances c
  step-Advances execute_approved = do_execute-Advances c
  step-Advances verify = do_verify-Advances c
  step-Advances complete = do_complete-Advances c
  step-Advances (unknown s) = Ends-raise _ (λ m h. tt)

  dispatch-Advances :
      (n : Node)
      → Ends
          (On (IsAt n))
          (λ done. On (Advanced n done))
          (λ _ _. Unit {0})
          (get_run c >>= λ r. step c r.current_state)
  unfolding get_run gets ◌>>=◌
  dispatch-Advances n = record {
    at = λ m h.
        subst (λ k. MetPair (λ done. On (Advanced n done)) (λ _ _. Unit {0}) (step c k m))
          (sym h.at.at_node) ((step-Advances n).at m h);
  }

  On-check_cancel : {B : Place → Type 0} → Keeps (On B) (check_cancel c)
  unfolding check_cancel
  On-check_cancel = search (keeps_rules, On-get_run)

  On-raise_budget : {B : Place → Type 0} (o : Option String) → Keeps (On B) (raise_budget c o)
  unfolding raise_budget
  On-raise_budget none = search keeps_rules
  On-raise_budget (some s) = search keeps_rules

  On-check_budgets : {B : Place → Type 0} → Keeps (On B) (check_budgets c)
  unfolding check_budgets
  On-check_budgets = search (keeps_rules, On-get_run, On-external, On-raise_budget)

  round-Advances :
      (n : Node) → Ends (On (IsAt n)) (λ done. On (Advanced n done)) (λ _ _. Unit {0}) (round c)
  unfolding round
  round-Advances n = keep _ _ On-check_cancel (keep _ _ On-check_budgets (dispatch-Advances n))

  -- A node from which the rounds that are left are enough.
  pub record Soon (fuel : ℕ) (p : Place) : Type 0 where
    pub node : Node
    pub enough : rank node < fuel
    pub at_node : IsAt node p

  -- The loop's own end, with the run at rest.
  abbrev pub Finished : Bool → Machine c.World → Type 0
  Finished done m = (done ≡ true) × On Rests m

  goes_on :
      (n : Node) (fuel : ℕ)
      → rank n < suc fuel
      → Ends (On (Soon fuel)) Finished (λ _ _. Unit {0}) (loop c fuel)
      → (done : Bool)
      → Ends
          (On (Advanced n done))
          Finished
          (λ _ _. Unit {0})
          (if done then pure true else loop c fuel)
  unfolding Advanced
  goes_on n fuel enough h true = Ends-pure true (λ m at. (refl, record { at = at.at }))
  goes_on n fuel enough h false = record {
    at = λ m at. h.at m (record {
      at = record { node = at.at.0; enough = omega (arith, enough, at.at.1); at_node = at.at.2 };
    });
  }

  loop-Ends : (fuel : ℕ) → Ends (On (Soon fuel)) Finished (λ _ _. Unit {0}) (loop c fuel)
  unfolding loop
  loop-Ends zero = record { at = λ m h. absurd (omega (arith, h.at.enough)) }
  loop-Ends (suc fuel) = record {
    at = λ m h.
        (Ends-bind (round c) (λ done. if done then pure true else loop c fuel)
            (round-Advances h.at.node) (goes_on h.at.node fuel h.at.enough (loop-Ends fuel))).at
          m (record { at = h.at.at_node });
  }

  started : (fuel : ℕ) → 12 < fuel → Leads (On (Soon fuel)) (On (Soon fuel)) (start c)
  unfolding start rank needs_action
  started fuel enough = Keeps-bind _ _ (On-get_run c) (λ r. Keeps-when _ _ (
      Keeps-then _ _
        (On-place c _ (λ r h. record {
          node = h.node;
          enough = h.enough;
          at_node = record { at_node = h.at_node.at_node; proposals = h.at_node.proposals };
        }))
        (On-transition c classify _ _ (λ r h. record {
          node = classify;
          enough = enough;
          at_node = record { at_node = refl; proposals = λ needs. absurd (cc needs) };
        }))))

  run-Ends :
      (fuel : ℕ) → 12 < fuel → Ends (On (Soon fuel)) Finished (λ e _. IsRefusal e) (run c fuel)
  unfolding run
  run-Ends fuel enough = Ends-then _ _ (Ends-Leads _ (Calm-start c) (started fuel enough)) (
      Ends-catch _ _ (loop-Ends fuel) (λ e.
        Ends-then _ _ (Ends-Leads _ (Calm-handle c e) (handle-Rests c e))
          (Ends-pure true (λ m h. (refl, h)))))

  -- From a machine whose node is in order, with more than 12 rounds to make, the driver ends by
  -- itself: `run` returns with the run at rest (waiting for an approval, completed, failed or
  -- cancelled), or it raises, and then only because the contract of the events refused one.
  pub run-Finished :
      (fuel : ℕ) (m : Machine c.World)
      → 12 < fuel
      → (needs_action m.run.current_state ≡ true → is_empty m.run.proposed_actions ≡ false)
      → Met Finished (λ e _. IsRefusal e) (run c fuel m).0 (run c fuel m).1
  run-Finished fuel m enough ready = (run-Ends fuel enough).at m (record {
    at = record {
      node = m.run.current_state;
      enough = rank-bound fuel m.run.current_state enough;
      at_node = record { at_node = refl; proposals = ready };
    };
  })
