-- ===== src/Persistence/Tests.antt =====
-- The properties of the repository at a concrete database.
use agent_workbench.Base.{
  strip, ◌==◌, string_eq, ℕ, ◌+◌, String, ◌<>◌, ◌≡◌, ◌≢◌, refl, true, false, none, some, [], ◌∷◌,
  negsuc,
}
use agent_workbench.Base.Action.{returned, raised, raise, raise_if, gets, modify, pure, ◌>>=◌, ◌>>◌}
use agent_workbench.Base.Json.{str, end, field}
use agent_workbench.Contracts.Events.{AgentEvent, message_delta, make_event}
use agent_workbench.Contracts.Fields.{is_id}
use agent_workbench.Orchestrator.State.{ApprovalDecision}
use agent_workbench.Persistence.Database.{
  RunRow, Approval, Database, conflict, not_found, transaction, find_run, find_event, find_approval,
  next_sequence, has_sequence,
}
use agent_workbench.Persistence.Numbering.{append_next_event-next_sequence, list_events-isolated}
use agent_workbench.Persistence.Redaction.{
  Patterns, default_redact, redact_fields, redact_value, redact_text,
}
use agent_workbench.Persistence.Repository.{
  owned, get_run, append_next_event, list_events, decide_approval, decide_found, decide_row, store,
}
use agent_workbench.Persistence.RoundTrip.{update_run-get_run}
use agent_workbench.Persistence.Updates.{RunChanges, changed, update_run}
use agent_workbench.Persistence.Transactions.{decide_approval-atomic, decide_approval-once}

abbrev one_run : RunRow
one_run = record {
  id = "run_1";
  tenant_id = "tenant_a";
  created_by = "alice";
  objective = "Checkout error rate is up";
  status = "running";
  current_state = "approval_pause";
  budget = end;
  idempotency_key = none;
  trace_id = none;
  correlation_id = none;
}

abbrev event : String → String → ℕ → AgentEvent
event id tenant n = record {
  event_id = id;
  run_id = "run_1";
  tenant_id = tenant;
  sequence = n;
  type = message_delta;
  payload = end;
  trace_id = none;
  correlation_id = none;
  sensitive = false;
  safe_for_ui = true;
}

abbrev request : Approval
request = record {
  approval_id = "appr_1";
  run_id = "run_1";
  tenant_id = "tenant_a";
  action_id = "act_1";
  requested_by = "orchestrator";
  approver = none;
  decision = ApprovalDecision.pending;
  reason = none;
  requested_at = 5;
  decided_at = none;
  expires_at = some 10;
}

abbrev patterns : Patterns
patterns = record {
  is_sensitive_path = λ path. path == "token";
  is_secret_value = λ value. false;
  is_opaque = λ value. false;
}

unfoldable stored_rows : Database
stored_rows = record {
  tenants = "tenant_a" ∷ [];
  runs = one_run ∷ [];
  events = event "e1" "tenant_a" 1 ∷ event "e0" "tenant_a" 0 ∷ [];
  approvals = request ∷ [];
  redact = default_redact patterns;
}

-- The request expired at 10: at 20 it is refused, and still pending.
decide_approval-atomic_example :
    (decide_approval "appr_1" "tenant_a" ApprovalDecision.approved "bob" none 20 stored_rows).1
    ≡ stored_rows
unfolding stored_rows decide_approval decide_found decide_row store find_approval raise raise_if
    gets modify transaction ◌>>=◌ ◌>>◌
decide_approval-atomic_example =
    decide_approval-atomic "appr_1" "tenant_a" ApprovalDecision.approved "bob" none 20 stored_rows
      (conflict ("approval " <> "appr_1" <> " expired")) refl

abbrev decided : Approval
decided = record request {
  decision = ApprovalDecision.approved;
  approver = some "bob";
  decided_at = some 7;
}

decide_approval-once_example :
    (decide_approval "appr_1" "tenant_a" ApprovalDecision.rejected "carol" none 8
      (decide_approval "appr_1" "tenant_a" ApprovalDecision.approved "bob" none 7 stored_rows).1).0
    ≢ returned decided
unfolding stored_rows decide_approval decide_found decide_row store find_approval raise raise_if
    gets modify pure transaction ◌>>=◌ ◌>>◌
decide_approval-once_example =
    decide_approval-once "appr_1" "tenant_a" "tenant_a" ApprovalDecision.approved
      ApprovalDecision.rejected "bob" "carol" none none 7 8 stored_rows decided decided refl

abbrev event_with : ℕ → String → AgentEvent
event_with n token = record (event "e2" "tenant_a" n) { payload = field "token" (str token) end }

-- The payload is redacted, and the number 2 is given.
append_next_event-next_sequence_example :
    (append_next_event (event_with 0 "sk-12345678") stored_rows ≡ (
      returned (event_with 2 "***REDACTED***"),
      record stored_rows { events = event_with 2 "***REDACTED***" ∷ stored_rows.events },
    ))
    × (has_sequence "run_1" 2 stored_rows.events ≡ false)
    × (next_sequence "run_1" (event_with 2 "***REDACTED***" ∷ stored_rows.events) ≡ 2 + 1)
unfolding stored_rows owned find_run find_event next_sequence make_event is_id strip default_redact
    redact_fields redact_value redact_text
append_next_event-next_sequence_example =
    append_next_event-next_sequence (event_with 0 "sk-12345678") stored_rows refl refl refl

list_events-isolated_example :
    (list_events "run_1" "tenant_b" (negsuc 0) 1000 stored_rows
      ≡ (raised (not_found ("run " <> "run_1" <> " not found")), stored_rows))
    × (append_next_event (event "e2" "tenant_b" 0) stored_rows
        ≡ (raised (not_found ("run " <> "run_1" <> " not found")), stored_rows))
unfolding stored_rows owned find_run
list_events-isolated_example =
    list_events-isolated (event "e2" "tenant_b" 0) (negsuc 0) 1000 stored_rows refl refl refl

abbrev cancelling : RunChanges
cancelling = record { status = some "cancelled"; current_state = none; budget = none }

update_run-get_run_example :
    let t = (update_run "run_1" "tenant_a" cancelling stored_rows).1 in
    ((update_run "run_1" "tenant_a" cancelling stored_rows).0
      ≡ returned (record one_run { status = "cancelled" }))
    × ((get_run "run_1" "tenant_a" t).0 ≡ returned (record one_run { status = "cancelled" }))
    × ((other : String) → other ≢ "run_1" → find_run other t.runs ≡ find_run other stored_rows.runs)
unfolding stored_rows find_run changed
update_run-get_run_example =
    update_run-get_run "run_1" "tenant_a" cancelling stored_rows one_run refl refl
