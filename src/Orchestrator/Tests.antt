-- ===== src/Orchestrator/Tests.antt =====
-- The properties of the graph at concrete runs, over the fake clients.
use agent_workbench.Base.{
  pos, strip, text_take, decimal, ◌==◌, string_eq, ◌≡◌, ◌≤◌, ◌+◌, refl, true, false, none, List, [],
  ◌∷◌, arith, All, leb, any,
}
use agent_workbench.Base.Ends.{Met}
use agent_workbench.Base.Json.{Fields, end, field, str, num, arr, cons, nil, get}
use agent_workbench.Base.Python.{get_text}
use agent_workbench.Orchestrator.Approval.Gate.{
  Approved, do_execute-Approved, Declined, resume_after_approval-Declined,
}
use agent_workbench.Orchestrator.Breaker.{is_open, new_breaker}
use agent_workbench.Orchestrator.Breaker.History.{Call, replay, trailing_failures, is_open-replay}
use agent_workbench.Orchestrator.Clients.{Clients}
use agent_workbench.Orchestrator.Examples.{plain_python, healthy_config, checkout_run, start_at}
use agent_workbench.Orchestrator.Fakes.{FakeWorld, fake_clients}
use agent_workbench.Orchestrator.Graph.Core.{Machine}
use agent_workbench.Orchestrator.Graph.Evidence.{
  build_findings, build_finding, checked_finding, kept_finding, clamp_confidence, severity_of,
  evidence_refs_of, raw_confidence, iterated,
}
use agent_workbench.Orchestrator.Graph.Evidence.Bounds.{IsBounded, build_findings-IsBounded}
use agent_workbench.Orchestrator.Graph.Gated.{approved_ids, do_execute}
use agent_workbench.Orchestrator.Graph.Run.{run, resume_after_approval}
use agent_workbench.Orchestrator.Policies.{
  PolicyQuery, evaluate_action, make_decision, chosen_decision, fields_fit, stripped_decision,
  destructive_tools,
}
use agent_workbench.Orchestrator.Policies.Decisions.{evaluate_action-allowed}
use agent_workbench.Orchestrator.Progress.{needs_action}
use agent_workbench.Orchestrator.Progress.Driver.{Finished, run-Finished}
use agent_workbench.Orchestrator.Progress.Handlers.{IsRefusal}
use agent_workbench.Orchestrator.Safety.{
  run-Reach, run-OnlyReads, run-invocations, run-Numbered, resume_after_approval-OnlySafe,
}
use agent_workbench.Orchestrator.State.{
  Severity, RunStatus, ProposedAction, ApprovalEntry, ApprovalDecision, Node, new_run,
}
use agent_workbench.Orchestrator.Trace.{Reach, view}
use agent_workbench.Orchestrator.Trace.Laws.{AllCalls, OnlyReads, OnlySafe, Numbered, invocations}

abbrev fakes : Clients
fakes = fake_clients plain_python healthy_config

abbrev fresh : Machine FakeWorld
fresh = start_at checkout_run

run-Reach_example : Reach (view false false fresh) (view false false (run fakes 14 fresh).1)
run-Reach_example = run-Reach fakes 14 fresh

run-OnlyReads_example : OnlyReads (run fakes 14 fresh).1.effects
unfolding new_run AllCalls
run-OnlyReads_example = run-OnlyReads fakes 14 fresh refl tt

run-invocations_example :
    (invocations (run fakes 14 fresh).1.effects ≤ fresh.run.limits.max_tool_calls)
    × (invocations (run fakes 14 fresh).1.effects ≤ (run fakes 14 fresh).1.run.usage.tool_calls)
run-invocations_example = run-invocations fakes 14 fresh refl

run-Numbered_example :
    Numbered ((run fakes 14 fresh).1.run.event_sequence + 1) (run fakes 14 fresh).1.effects
unfolding Numbered
run-Numbered_example = run-Numbered fakes 14 fresh tt

run-Finished_example :
    Met (Finished fakes) (λ e _. IsRefusal e) (run fakes 14 fresh).0 (run fakes 14 fresh).1
unfolding new_run needs_action
run-Finished_example = run-Finished fakes 14 fresh (omega arith) (λ needs. absurd (cc needs))

-- A run that waits, with one proposal and its row.
abbrev ticket : ProposedAction
ticket = record {
  action_id = "run_1-ticket-create-abcdef";
  tool_name = "ticket.create";
  reason = "Track investigation";
  input = field "title" (str "Investigate checkout-api") end;
  risk = "low";
  requires_approval = true;
  rollback = none;
  dry_run = false;
  idempotency_key = "idem-0123456789abcdef";
}

abbrev ticket_row : ApprovalDecision → ApprovalEntry
ticket_row d = record {
  approval_id = "run_1-ticket-create-abcdef-appr";
  action_id = "run_1-ticket-create-abcdef";
  decision = d;
  approver = none;
  reason = none;
}

unfoldable waiting : ApprovalDecision → Machine FakeWorld
waiting d = start_at (record checkout_run {
  status = RunStatus.waiting_for_approval;
  current_state = Node.approval_pause;
  proposed_actions = ticket ∷ [];
  approvals = ticket_row d ∷ [];
})

resume_after_approval-OnlySafe_example :
    OnlySafe (run fakes 14 (waiting ApprovalDecision.pending)).1.effects
    × OnlySafe
        (resume_after_approval fakes 14 ApprovalDecision.approved "alice" none
          (waiting ApprovalDecision.pending)).1.effects
unfolding waiting AllCalls
resume_after_approval-OnlySafe_example =
    resume_after_approval-OnlySafe fakes 14 ApprovalDecision.approved "alice" none
      (waiting ApprovalDecision.pending) tt

do_execute-Approved_example :
    AllCalls
      (Approved
        (approved_ids (waiting ApprovalDecision.approved).run.approvals)
        (waiting ApprovalDecision.approved).run.proposed_actions)
      (do_execute fakes (waiting ApprovalDecision.approved)).1.effects
unfolding waiting AllCalls
do_execute-Approved_example = do_execute-Approved fakes (waiting ApprovalDecision.approved) tt

resume_after_approval-Declined_example :
    Declined ApprovalDecision.rejected
      (waiting ApprovalDecision.pending)
      (resume_after_approval fakes 14 ApprovalDecision.rejected "alice" none
        (waiting ApprovalDecision.pending)).1
resume_after_approval-Declined_example =
    resume_after_approval-Declined fakes (waiting ApprovalDecision.pending) 14 "alice" none
      ApprovalDecision.rejected (λ e. cc e)

abbrev three_failures : List Call
three_failures =
    record { key = "mcp"; succeeded = false }
    ∷ record { key = "a2a"; succeeded = true }
    ∷ record { key = "mcp"; succeeded = false }
    ∷ record { key = "mcp"; succeeded = false }
    ∷ []

is_open-replay_example :
    is_open (replay (new_breaker 3) three_failures) "mcp"
    ≡ leb 3 (trailing_failures "mcp" three_failures)
is_open-replay_example = is_open-replay 3 three_failures "mcp" (omega arith)

abbrev error_rate : Fields
error_rate = field "title" (str "High error rate") (
    field "summary" (str "Errors follow the release") (
      field "confidence" (num (pos 250))
        (field "evidence_refs" (arr (cons (str "telemetry://m/checkout-api/err") nil)) end)))

-- The finding is kept, with its confidence of 2.5 clamped to 1.
build_findings-IsBounded_example : All IsBounded (
    record {
      finding_id = "run_1-f0";
      title = "High error rate";
      summary = "Errors follow the release";
      evidence_refs = "telemetry://m/checkout-api/err" ∷ [];
      confidence = 100;
      severity = Severity.high;
    }
    ∷ [])
unfolding build_findings build_finding checked_finding kept_finding clamp_confidence severity_of
    evidence_refs_of raw_confidence iterated get get_text strip text_take decimal
build_findings-IsBounded_example = build_findings-IsBounded plain_python "run_1" 0 (error_rate ∷ [])

-- A destructive tool that is proposed as an external write, as the graph asks: without a tenant.
abbrev disable_query : PolicyQuery
disable_query = record {
  tool_name = "service.disable";
  side_effect = "external_write";
  tenant_id = none;
  resource_tenant_id = none;
  env = "dev";
  run_id = none;
  trace_id = none;
  correlation_id = none;
}

abbrev health_query : PolicyQuery
health_query = record disable_query { tool_name = "service.get_health"; side_effect = "none" }

evaluate_action-allowed_example :
    (health_query.side_effect ≡ "none")
    × (any (λ t. t == "service.get_health") destructive_tools ≡ false)
unfolding evaluate_action make_decision chosen_decision fields_fit stripped_decision strip
evaluate_action-allowed_example =
    evaluate_action-allowed health_query (stripped_decision (chosen_decision health_query)) refl
      refl refl
