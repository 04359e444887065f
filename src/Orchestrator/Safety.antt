-- ===== src/Orchestrator/Safety.antt =====
-- What the graph may ask of the tools, whatever the clients answer.
use agent_workbench.Base.{ℕ, ◌+◌, ◌≤◌, String, ◌≡◌, refl, ap, false, Option, [], arith}
use agent_workbench.Base.Action.{modify}
use agent_workbench.Base.Keeps.{Keeps, Keeps-raise, keeps_rules}
use agent_workbench.Base.Json.{Fields}
use agent_workbench.Contracts.Events.{EventType}
use agent_workbench.Orchestrator.Clients.{Clients}
use agent_workbench.Orchestrator.Graph.Core.{Machine, Graph, update, get_run, save, emit}
use agent_workbench.Orchestrator.Graph.Run.{
  run, resume_approved, resume_declined, resume_decided, resume_after_approval,
}
use agent_workbench.Orchestrator.Refinement.{Follows, Follows-emit, Follows-save}
use agent_workbench.Orchestrator.Refinement.Run.{Follows-run, Follows-resume_declined}
use agent_workbench.Orchestrator.State.{RunState, ApprovalDecision}
use agent_workbench.Orchestrator.Trace.{View, view, is_execute, Reach, here}
use agent_workbench.Orchestrator.Trace.Laws.{
  OnlyReads, OnlySafe, invocations, Numbered, Reach-IsQuiet, Reach-IsCharged, Reach-Numbered,
  Reach-OnlySafe, Reach-limits,
}

module _ (c : Clients) (fuel : ℕ) (m : Machine c.World) where
  -- Whatever the clients answer, a run of the graph, from any machine and for any number of rounds,
  -- is a run of the step relation of Trace.
  pub run-Reach : Reach (view false false m) (view false false (run c fuel m).1)
  run-Reach = ((Follows-run c fuel).at m (record { at = here })).at

  -- A run that does not start at `execute_approved` invokes no tool but reads of the catalog: what a
  -- write does is reached by an approval alone.
  pub run-OnlyReads :
      is_execute m.run.current_state ≡ false
      → OnlyReads m.effects
      → OnlyReads (run c fuel m).1.effects
  run-OnlyReads away reads =
      (Reach-IsQuiet (record { shut = refl; away = away; only_reads = reads }) run-Reach).only_reads

  -- From a machine with no effects yet, a run invokes tools at most as often as the limit on tool
  -- calls allows, and at most as often as it charged.
  pub run-invocations :
      m.effects ≡ []
      → (invocations (run c fuel m).1.effects ≤ m.run.limits.max_tool_calls)
        × (invocations (run c fuel m).1.effects ≤ (run c fuel m).1.run.usage.tool_calls)
  unfolding invocations
  run-invocations fresh =
      let h =
        Reach-IsCharged
          (record {
            charged = omega (arith, ap invocations fresh);
            within_limit = omega (arith, ap invocations fresh);
          })
          run-Reach in
      (
        omega (arith, h.within_limit, ap (λ l. l.max_tool_calls) (Reach-limits run-Reach)),
        omega (arith, h.charged),
      )

  -- The events that a run appends are numbered in order: from the latest back, each number is below
  -- the next one and none is above the run's counter.
  pub run-Numbered :
      Numbered (m.run.event_sequence + 1) m.effects
      → Numbered ((run c fuel m).1.run.event_sequence + 1) (run c fuel m).1.effects
  run-Numbered h = Reach-Numbered h run-Reach

module _ (c : Clients) where
  SafeEffects : Machine c.World → Type 0
  SafeEffects m = OnlySafe m.effects

  Keeps-safe :
      {A : Type 0} (x : Graph c A)
      → ((v : View) → Keeps (Follows v false false) x)
      → Keeps SafeEffects x
  unfolding SafeEffects
  Keeps-safe x k = record {
    at = λ m h. Reach-OnlySafe h ((k (view false false m)).at m (record { at = here })).at;
  }

  safe-update : (f : RunState → RunState) → Keeps SafeEffects (update c f)
  unfolding SafeEffects update modify
  safe-update f = record { at = λ m h. h }

  safe-emit : (t : EventType) (payload : Fields) → Keeps SafeEffects (emit c t payload)
  safe-emit t payload = Keeps-safe (emit c t payload) (λ v. Follows-emit c t payload)

  safe-save : Keeps SafeEffects (save c)
  safe-save = Keeps-safe (save c) (λ v. Follows-save c)

  safe-run : (fuel : ℕ) → Keeps SafeEffects (run c fuel)
  safe-run fuel = Keeps-safe (run c fuel) (λ v. Follows-run c fuel)

  safe-resume_approved :
      (fuel : ℕ) (approver : String) (reason : Option String)
      → Keeps SafeEffects (resume_approved c fuel approver reason)
  unfolding resume_approved
  safe-resume_approved fuel approver reason =
      search (keeps_rules, safe-update, safe-emit, safe-save, safe-run) depth 20

  safe-resume_declined :
      (d : ApprovalDecision) (approver : String) (reason : Option String)
      → Keeps SafeEffects (resume_declined c d approver reason)
  safe-resume_declined d approver reason =
      Keeps-safe (resume_declined c d approver reason)
        (λ v. Follows-resume_declined c d approver reason)

  safe-decided :
      (fuel : ℕ) (d : ApprovalDecision) (approver : String) (reason : Option String)
      → Keeps SafeEffects (resume_decided c fuel d approver reason)
  unfolding resume_decided
  safe-decided fuel ApprovalDecision.approved who why = safe-resume_approved fuel who why
  safe-decided fuel ApprovalDecision.pending who why = Keeps-raise _
  safe-decided fuel ApprovalDecision.rejected who why = search (keeps_rules, safe-resume_declined)
  safe-decided fuel ApprovalDecision.expired who why = search (keeps_rules, safe-resume_declined)

  safe-resume :
      (fuel : ℕ) (d : ApprovalDecision) (approver : String) (reason : Option String)
      → Keeps SafeEffects (resume_after_approval c fuel d approver reason)
  unfolding resume_after_approval get_run
  safe-resume fuel d approver reason = search (keeps_rules, safe-decided)

  -- Neither a run nor a resumption with any decision invokes a destructive tool, or one that the
  -- catalog does not name.
  pub resume_after_approval-OnlySafe :
      (fuel : ℕ) (d : ApprovalDecision) (approver : String) (reason : Option String)
      → (m : Machine c.World) → OnlySafe m.effects
      → OnlySafe (run c fuel m).1.effects
        × OnlySafe (resume_after_approval c fuel d approver reason m).1.effects
  unfolding SafeEffects
  resume_after_approval-OnlySafe fuel d approver reason m h =
      ((safe-run fuel).at m h, (safe-resume fuel d approver reason).at m h)
