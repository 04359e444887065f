-- ===== src/Api/Decide.antt =====
-- The decision endpoint of apps/api/routes/approvals.py, with its idempotency cache.
pub mod Gate
pub mod Replay
use agent_workbench.Base.{
  ℕ, String, ◌<>◌, Bool, true, false, not, ◌&&◌, ◌||◌, Option, none, some, List, [], ◌∷◌, ◌++◌, map,
  ◌==◌, string_eq, codes, lower, is_infix, is_blank, if◌then◌else◌,
}
use agent_workbench.Base.Action.{
  Action, Result, returned, raised, pure, raise, gets, modify, raise_if, ◌>>=◌, ◌>>◌,
}
use agent_workbench.Base.Dict.{lookup, insert}
use agent_workbench.Base.Json.{bool, str, Fields, end, field}
use agent_workbench.Contracts.Events.{AgentEvent, EventType, approval_received, run_completed}
use agent_workbench.Orchestrator.Breaker.{new_breaker, circuit_breaker_threshold}
use agent_workbench.Orchestrator.Clients.{Clients}
use agent_workbench.Orchestrator.Graph.Core.{Machine}
use agent_workbench.Orchestrator.Graph.Run.{run}
use agent_workbench.Orchestrator.State.{
  RunState, RunStatus, Outcome, ApprovalEntry, ApprovalDecision, Node, approval_pause,
  execute_approved,
}
use agent_workbench.Persistence.Database.{
  Approval, RepositoryError, repository_error, not_found, conflict, Repository, find_approval,
}
use agent_workbench.Persistence.Repository.{get_run, decide_approval, append_next_event}
use agent_workbench.Persistence.Updates.{update_run, list_approvals}
use agent_workbench.Security.Authorization.{Identity, AuthorizationError, require_scopes}
use agent_workbench.Api.Store.{
  Decided, CachedDecision, Gateway, RepositoryStore, quietly, save, apply_effects,
}
use agent_workbench.Api.Requests.{
  ApiError, http, unauthorized, escaped, DecideRequest, Surroundings, DecideCall, Endpoint,
  key_text, event, missing_only, store_of, in_repository, authorized, suppressed,
}
use agent_workbench.Api.Resume.{maybe_resume}

-- `body.decision`, where it is one of the two
unfoldable pub decision_of : String → Option ApprovalDecision
decision_of s =
    if s == "approved"
    then some ApprovalDecision.approved
    else if s == "rejected"
    then some ApprovalDecision.rejected
    else none

abbrev pub invalid : String → ApiError
invalid message = http 400 "validation_error" message

unfoldable pub find_decided : String → String → List CachedDecision → Option Decided
find_decided approval_id key [] = none
find_decided approval_id key (d ∷ ds) =
    if d.approval_id == approval_id && d.key == key
    then some d.reply
    else find_decided approval_id key ds

unfoldable pub decide_failed : RepositoryError → ApiError
decide_failed (not_found message) = http 404 "not_found" "not found"
decide_failed (conflict message) =
    http 409
      (if is_infix (codes "expir") (lower (codes message)) then "approval_expired" else "conflict")
      message
decide_failed e = escaped e

module _ (c : Clients) where
  abbrev pub reply_of : DecideCall → Decided
  reply_of d = record {
    approval_id = d.approval_id;
    run_id = d.run_id;
    decision = d.body.decision;
    approver = d.body.approver;
    reason = d.body.reason;
  }

  abbrev received : DecideCall → AgentEvent
  received d = event d.around.received_id d.run_id d.identity.tenant_id approval_received (
      field "approval_id" (str d.approval_id)
        (field "decision" (str d.body.decision) (field "approver" (str d.body.approver) end)))

  -- What follows a decision that was stored
  unfoldable pub finish : DecideCall → Endpoint c.World Decided
  finish d = do
    in_repository c (suppressed (append_next_event (received d))) escaped
    modify (λ g. record g {
      decided =
          record {
            approval_id = d.approval_id;
            key = key_text d.idempotency_key;
            reply = reply_of d;
          }
          ∷ g.decided;
    })
    modify (maybe_resume c d)
    pure (reply_of d)

  -- The decision itself
  unfoldable pub decide_new : DecideCall → Option ApprovalDecision → Endpoint c.World Decided
  decide_new d none = raise (invalid "decision must be approved|rejected")
  decide_new d (some decision) = do
    row ← in_repository c (get_run d.run_id d.identity.tenant_id) missing_only
    a ←
        in_repository c
          (decide_approval d.approval_id d.identity.tenant_id decision d.body.approver d.body.reason
            d.around.now)
          decide_failed
    raise_if (not (a.run_id == d.run_id)) (http 404 "not_found" "not found")
    finish d

  -- A cached reply for the same run is given again.
  unfoldable pub decide_cached : DecideCall → Option Decided → Endpoint c.World Decided
  decide_cached d none = decide_new d (decision_of d.body.decision)
  decide_cached d (some reply) =
      if reply.run_id == d.run_id then pure reply else decide_new d (decision_of d.body.decision)

  abbrev pub is_none : Option ApprovalDecision → Bool
  is_none none = true
  is_none (some d) = false

  -- `decide`
  unfoldable pub decide : DecideCall → Endpoint c.World Decided
  decide d = do
    authorized c (require_scopes d.identity ("case.approve" ∷ []))
    raise_if (not (d.body.schema_version == "1.0")) (invalid "stale schema_version; expected 1.0")
    raise_if (is_blank d.body.approver) (invalid "approver is required")
    raise_if (key_text d.idempotency_key == "") (invalid "Idempotency-Key header is required")
    raise_if (is_none (decision_of d.body.decision)) (invalid "decision must be approved|rejected")
    cached ← gets (λ g. find_decided d.approval_id (key_text d.idempotency_key) g.decided)
    decide_cached d cached
