-- ===== src/Api/Tests.antt =====
-- The properties of the endpoints at a paused run whose remediation waits for its approval.
use agent_workbench.Contracts.Events.{make_event}
use agent_workbench.Contracts.Fields.{is_id}
use agent_workbench.Api.Requests.{suppressed}
use agent_workbench.Persistence.Repository.{append_next_event}
use agent_workbench.Persistence.Database.{find_event, has_sequence, next_sequence}
use agent_workbench.Base.{
  strip, String, ◌≡◌, refl, none, some, [], ◌∷◌, is_blank, is_space, ℕ, true, false, All, pos,
}
use agent_workbench.Base.Action.{returned, pure, raise, raise_if, gets, modify, ◌>>=◌, ◌>>◌, when}
use agent_workbench.Base.Json.{end}
use agent_workbench.Contracts.Events.{AgentEvent, message_delta}
use agent_workbench.Orchestrator.Clients.{Clients}
use agent_workbench.Orchestrator.Examples.{plain_python, healthy_config, idle_world, checkout_run}
use agent_workbench.Orchestrator.Fakes.{FakeWorld, fake_clients}
use agent_workbench.Orchestrator.State.{
  RunState, RunStatus, ApprovalDecision, ApprovalEntry, approval_pause,
}
use agent_workbench.Persistence.Database.{RunRow, Approval, transaction, find_run, find_approval}
use agent_workbench.Persistence.Repository.{
  get_run, get_run_row, decide_approval, decide_found, decide_row, store, list_events, require_run,
  owned, selected, is_after, insert_sorted,
}
use agent_workbench.Persistence.Updates.{update_run, put_run, changed}
use agent_workbench.Security.Authorization.{Identity, require_scopes}
use agent_workbench.Api.Store.{Decided, Gateway, RepositoryStore}
use agent_workbench.Api.Requests.{DecideCall, in_repository, authorized}
use agent_workbench.Api.Decide.{
  decision_of, find_decided, finish, decide_new, decide_cached, decide, reply_of,
}
use agent_workbench.Api.Decide.Gate.{OnlyApproved, decide-OnlyApproved}
use agent_workbench.Api.Decide.Replay.{decide-repeated}
use agent_workbench.Api.Runs.{
  RunCall, EventsCall, cancel_run, cancel_row, request_cancel, propagate_cancel, execute_run,
  run_events, header_after,
}
use agent_workbench.Api.Runs.Cancel.{call_count, cancel_run-stops}
use agent_workbench.Api.Runs.Replayed.{IsSince, run_events-IsSince}

abbrev clients : Clients
clients = fake_clients plain_python healthy_config

abbrev approver_of : String → Identity
approver_of tenant = record { tenant_id = tenant; user_id = "bob"; scopes = "case.approve" ∷ [] }

abbrev call : String → String → DecideCall
call tenant decision = record {
  run_id = "run_1";
  approval_id = "appr_1";
  body = record { decision = decision; approver = "bob"; reason = none; schema_version = "1.0" };
  identity = approver_of tenant;
  idempotency_key = some "key_1";
  around = record { now = 7; received_id = "evt_1"; completed_id = "evt_2" };
}

abbrev entry : ApprovalEntry
entry = record {
  approval_id = "appr_1";
  action_id = "act_1";
  decision = ApprovalDecision.pending;
  approver = none;
  reason = none;
}

abbrev paused_run : RunState
paused_run = record checkout_run {
  current_state = approval_pause;
  status = RunStatus.waiting_for_approval;
  approvals = entry ∷ [];
}

abbrev row : RunRow
row = record {
  id = "run_1";
  tenant_id = "tenant_a";
  created_by = "alice";
  objective = "Checkout error rate is up";
  status = "waiting_for_approval";
  current_state = "approval_pause";
  budget = end;
  idempotency_key = none;
  trace_id = none;
  correlation_id = none;
}

abbrev request : Approval
request = record {
  approval_id = "appr_1";
  run_id = "run_1";
  tenant_id = "tenant_a";
  action_id = "act_1";
  requested_by = "orchestrator";
  approver = none;
  decision = ApprovalDecision.pending;
  reason = none;
  requested_at = 5;
  decided_at = none;
  expires_at = some 10;
}

unfoldable paused_gateway : Gateway FakeWorld
paused_gateway = record {
  db = record {
    tenants = "tenant_a" ∷ [];
    runs = row ∷ [];
    events = [];
    approvals = request ∷ [];
    redact = λ fs. fs;
  };
  run_states = ("run_1", paused_run) ∷ [];
  decided = [];
  cancel_flags = [];
  a2a_cancelled = [];
  effects = [];
  world = idle_world;
}

decide-OnlyApproved_example :
    OnlyApproved clients
      (call "tenant_a" "approved")
      paused_gateway.effects
      paused_gateway.db
      (decide clients (call "tenant_a" "approved") paused_gateway).1
decide-OnlyApproved_example =
    decide-OnlyApproved clients (call "tenant_a" "approved") paused_gateway

-- The second request rejects, for another tenant, what the first approved.
decide-repeated_example :
    let h = (decide clients (call "tenant_a" "approved") paused_gateway).1 in
    ((decide clients (call "tenant_b" "rejected") h).1 ≡ h)
    × ((again : Decided)
        → (decide clients (call "tenant_b" "rejected") h).0 ≡ returned again
        → again ≡ reply_of clients (call "tenant_a" "approved"))
unfolding paused_gateway decide decide_cached decide_new finish authorized require_scopes
    decision_of find_decided in_repository get_run get_run_row decide_approval decide_found
    decide_row store find_run find_approval suppressed append_next_event owned find_event
    has_sequence make_event is_id strip next_sequence is_blank is_space pure raise raise_if gets
    modify transaction ◌>>=◌ ◌>>◌
decide-repeated_example =
    decide-repeated clients (call "tenant_a" "approved") (call "tenant_b" "rejected") paused_gateway
      (reply_of clients (call "tenant_a" "approved")) refl refl refl refl

abbrev cancel_call : RunCall
cancel_call = record {
  run_id = "run_1";
  identity = record { tenant_id = "tenant_a"; user_id = "alice"; scopes = "case.write" ∷ [] };
  now = 7;
  event_id = "evt_3";
}

abbrev store_a : RepositoryStore
store_a = record { run_id = "run_1"; tenant_id = "tenant_a"; now = 8 }

cancel_run-stops_example :
    let h = (cancel_run clients cancel_call paused_gateway).1 in
    call_count (execute_run clients store_a h).effects ≡ call_count h.effects
unfolding paused_gateway cancel_run cancel_row request_cancel propagate_cancel authorized
    require_scopes in_repository get_run get_run_row update_run put_run changed find_run suppressed
    append_next_event owned find_event has_sequence make_event is_id strip next_sequence pure raise
    raise_if gets modify when transaction ◌>>=◌ ◌>>◌
cancel_run-stops_example =
    cancel_run-stops clients cancel_call store_a paused_gateway
      (record { run_id = "run_1"; status = "cancelled" }) refl refl

abbrev stored_event : String → ℕ → AgentEvent
stored_event id n = record {
  event_id = id;
  run_id = "run_1";
  tenant_id = "tenant_a";
  sequence = n;
  type = message_delta;
  payload = end;
  trace_id = none;
  correlation_id = none;
  sensitive = false;
  safe_for_ui = true;
}

unfoldable replay_gateway : Gateway FakeWorld
unfolding paused_gateway
replay_gateway = record paused_gateway {
  db = record paused_gateway.db { events = stored_event "evt_1" 1 ∷ stored_event "evt_0" 0 ∷ [] };
}

abbrev events_call : EventsCall
events_call = record {
  run_id = "run_1";
  identity = record { tenant_id = "tenant_a"; user_id = "alice"; scopes = "case.read" ∷ [] };
  after_sequence = 0;
  last_event_id = none;
}

-- Of the events 0 and 1, the replay from the start returns the second.
run_events-IsSince_example : All (IsSince "run_1" 0) (stored_event "evt_1" 1 ∷ [])
unfolding paused_gateway replay_gateway run_events header_after authorized require_scopes
    in_repository get_run get_run_row find_run list_events require_run owned selected is_after
    insert_sorted pure raise raise_if gets ◌>>=◌ ◌>>◌
run_events-IsSince_example =
    run_events-IsSince clients (λ s. none) events_call replay_gateway
      (record { run_id = "run_1"; after_sequence = pos 0; events = stored_event "evt_1" 1 ∷ [] })
      refl refl
