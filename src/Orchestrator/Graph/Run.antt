-- ===== src/Orchestrator/Graph/Run.antt =====
-- The driver (graph.py: `run` and `resume_after_approval`), over the steps of Steps and Gate.
use agent_workbench.Base.{
  ℕ, zero, suc, String, ◌<>◌, Bool, true, false, not, Option, some, ◌∷◌, map, if◌then◌else◌,
}
use agent_workbench.Base.Action.{returned, pure, raise, catch, raise_if, when, ◌>>=◌, ◌>>◌}
use agent_workbench.Base.Json.{bool, str, obj, Fields, end, field}
use agent_workbench.Contracts.Events.{
  run_started, run_completed, run_failed, run_cancelled, approval_received,
}
use agent_workbench.Orchestrator.Clients.{Exn, budget_exceeded, timeout, failure, Clients}
use agent_workbench.Orchestrator.Graph.Core.{
  Graph, update, get_run, save, emit, transition, check_cancel, check_budgets, cancel_sent,
}
use agent_workbench.Orchestrator.Graph.Steps.{
  do_classify, do_plan, do_resources, do_mcp_reads, do_delegate, do_correlate, do_findings,
  conclude,
}
use agent_workbench.Orchestrator.Graph.Gated.{
  do_propose, do_policy, do_approval_pause, do_execute, do_verify, do_complete,
}
use agent_workbench.Orchestrator.State.{
  RunState, RunStatus, Outcome, Node, ApprovalEntry, ApprovalDecision, decision_text, ErrorCode,
  classify, plan, resources, mcp_reads, a2a_delegate, correlate, findings, propose, policy,
  approval_pause, execute_approved, verify, complete, unknown,
}
use agent_workbench.Orchestrator.Utilities.{safe_error}

abbrev is_created : RunStatus → Bool
is_created RunStatus.created = true
is_created _ = false

abbrev pub code_text : ErrorCode → String
code_text ErrorCode.budget_exceeded = "budget_exceeded"
code_text ErrorCode.internal_error = "internal_error"

module _ (c : Clients) where
  -- The `if`/`elif` ladder of the loop; the Boolean says whether `run` returns.
  unfoldable pub step : Node → Graph c Bool
  step classify = do_classify c
  step plan = do_plan c >> pure false
  step resources = do_resources c >> pure false
  step mcp_reads = do_mcp_reads c >> pure false
  step a2a_delegate = do_delegate c >> pure false
  step correlate = do_correlate c >> pure false
  step findings = do_findings c
  step propose = do_propose c >> pure false
  step policy = do_policy c
  step approval_pause = do_approval_pause c >> pure true
  step execute_approved = do_execute c >> pure false
  step verify = do_verify c >> pure false
  step complete = do_complete c >> pure true
  step (unknown s) = raise (failure "RuntimeError" "unknown workflow state")

  -- One round of `while True`.
  unfoldable pub round : Graph c Bool
  round = do check_cancel c; check_budgets c; r ← get_run c; step r.current_state

  -- The loop, with the rounds that it may still make: `false` is their end, not the loop's.
  unfoldable pub loop : ℕ → Graph c Bool
  loop zero = pure false
  loop (suc fuel) = do done ← round; if done then pure true else loop fuel

  unfoldable pub fail : ErrorCode → String → Graph c (Unit {0})
  fail code message = update c (λ r. record r {
    status = RunStatus.failed;
    outcome = some Outcome.failed;
    error = some (record { code = code; message = message });
  })

  error_event : ErrorCode → String → Fields
  error_event code message =
      field "error"
        (obj (
          field "code" (str (code_text code))
            (field "message" (str message) (field "retryable" (bool false) end))))
        end

  -- The cancellation of the specialist's task; what it raises is dropped.
  unfoldable pub send_cancel : Graph c (Unit {0})
  send_cancel m =
      let task = m.run.run_id <> "-obs-1" in
      let (r, w) = c.cancel task m.world in
      (returned tt, record m { world = w; effects = cancel_sent task ∷ m.effects })

  -- `try: m except Exception: pass`
  unfoldable pub suppress : Graph c (Unit {0}) → Graph c (Unit {0})
  suppress m = catch m (λ e. pure tt)

  -- The `except` clauses of `run`.
  unfoldable pub handle : Exn → Graph c (Unit {0})
  unfolding error_event
  handle Exn.run_cancelled = do
    update c (λ r. record r { status = RunStatus.cancelled; outcome = some Outcome.cancelled })
    emit c run_cancelled (field "reason" (str "cancel requested") end)
    save c
    send_cancel
  handle (budget_exceeded message) = do
    fail ErrorCode.budget_exceeded message
    emit c run_failed (error_event ErrorCode.budget_exceeded message)
    save c
  handle (timeout class message) = do
    fail ErrorCode.internal_error (safe_error (timeout class message))
    suppress (do
      emit c run_failed (error_event ErrorCode.internal_error (safe_error (timeout class message)))
      save c)
  handle (failure class message) = do
    fail ErrorCode.internal_error (safe_error (failure class message))
    suppress (do
      emit c run_failed (error_event ErrorCode.internal_error (safe_error (failure class message)))
      save c)

  -- `if state.status == "created"`
  unfoldable pub start : Graph c (Unit {0})
  start = do
    r ← get_run c
    when (is_created r.status) (do
      update c (λ r. record r { status = RunStatus.running })
      transition c classify run_started (field "objective" (str r.objective) end))

  -- `run`
  unfoldable pub run : ℕ → Graph c Bool
  run fuel = start >> catch (loop fuel) (λ e. handle e >> pure true)

  abbrev pub decide_entry :
      ApprovalDecision → String → Option String → ApprovalEntry → ApprovalEntry
  decide_entry d approver reason a = record a {
    decision = d;
    approver = some approver;
    reason = reason;
  }

  abbrev pub awaits_approval : RunState → Bool
  awaits_approval r = elim r.current_state [
    | approval_pause ↦ elim r.status [ RunStatus.waiting_for_approval ↦ true | _ ↦ false ]
    | _ ↦ false
  ]

  -- `resume_after_approval`, after its two checks
  unfoldable pub resume_approved : ℕ → String → Option String → Graph c Bool
  resume_approved fuel approver reason = do
    update c (λ r. record r {
      approvals = map (decide_entry ApprovalDecision.approved approver reason) r.approvals;
    })
    emit c approval_received
        (field "decision" (str "approved") (field "approver" (str approver) end))
    save c
    update c (λ r. record r { current_state = execute_approved })
    run fuel

  unfoldable pub resume_declined : ApprovalDecision → String → Option String → Graph c (Unit {0})
  resume_declined decision approver reason = do
    update c (λ r. record r { approvals = map (decide_entry decision approver reason) r.approvals })
    conclude c Outcome.rejected
    emit c approval_received
        (field "decision" (str (decision_text decision)) (field "approver" (str approver) end))
    transition c complete run_completed (
        field "outcome" (str "rejected") (
          field "executed" (bool false) (
            field "note" (str ("approval " <> decision_text decision <> "; no actions executed"))
              end)))

  -- The branches on the decision; one that is none of the three is `pending` here.
  unfoldable pub resume_decided : ℕ → ApprovalDecision → String → Option String → Graph c Bool
  resume_decided fuel ApprovalDecision.approved approver reason =
      resume_approved fuel approver reason
  resume_decided fuel ApprovalDecision.pending approver reason =
      raise (failure "ValueError" "decision must be approved|rejected|expired")
  resume_decided fuel d approver reason = resume_declined d approver reason >> pure true

  -- `resume_after_approval`
  unfoldable pub resume_after_approval :
      ℕ → ApprovalDecision → String → Option String → Graph c Bool
  unfolding resume_decided
  resume_after_approval fuel decision approver reason = do
    r ← get_run c
    raise_if (not (awaits_approval r)) (failure "ValueError" "run is not awaiting approval")
    resume_decided fuel decision approver reason
