-- ===== src/Persistence/Repository.antt =====
-- The methods of SqlAlchemyRepository (packages/persistence/repositories.py) on runs, events and
-- approvals. A method that needs the clock takes the time; a new event id is given by the caller.
-- Concurrent sessions are not modelled, and a stored row that a method reads is not validated again.
use agent_workbench.Base.{
  ℕ, String, ◌<>◌, Bool, true, false, not, ◌&&◌, ◌||◌, Option, none, some, List, [], ◌∷◌, ◌++◌,
  ◌==◌, string_eq, ltb, leb, any, take, if◌then◌else◌, ℤ, pos, negsuc,
}
use agent_workbench.Base.Action.{pure, raise, gets, modify, raise_if, ◌>>=◌, ◌>>◌}
use agent_workbench.Base.Json.{Fields}
use agent_workbench.Contracts.Events.{AgentEvent, make_event}
use agent_workbench.Orchestrator.State.{ApprovalDecision, pending, approved, rejected, expired}
use agent_workbench.Persistence.Database.{
  RunRow, Approval, repository_error, not_found, conflict, validation_error, Repository,
  transaction, find_run, find_by_key, find_event, find_approval, next_sequence, has_sequence,
  put_approval,
}

-- `row is None or row.tenant_id != tenant_id`
unfoldable pub owned : String → Option RunRow → Bool
owned tenant none = false
owned tenant (some r) = r.tenant_id == tenant

-- `_get_run_row`
unfoldable pub get_run_row : String → String → Repository RunRow
get_run_row run_id tenant = do
  found ← gets (λ s. find_run run_id s.runs)
  elim found [
    | none ↦ raise (not_found ("run " <> run_id <> " not found"))
    | some r ↦
        raise_if (not (r.tenant_id == tenant)) (not_found ("run " <> run_id <> " not found"))
        >> pure r
  ]

-- `get_run`
unfoldable pub get_run : String → String → Repository RunRow
get_run = get_run_row

-- `ensure_tenant`, `_ensure_tenant_in`
unfoldable pub ensure_tenant : String → Repository (Unit {0})
ensure_tenant tenant = modify (λ s. record s {
  tenants = if any (λ t. t == tenant) s.tenants then s.tenants else tenant ∷ s.tenants;
})

-- `if idempotency_key:`, a key that is not empty
unfoldable pub existing_run : String → Option String → List RunRow → Option RunRow
existing_run tenant none rows = none
existing_run tenant (some key) rows = if key == "" then none else find_by_key tenant key rows

add_run : RunRow → Repository RunRow
add_run row = do
  taken ← gets (λ s. find_run row.id s.runs)
  elim taken [
    | some _ ↦ raise (conflict ("run " <> row.id <> " already exists"))
    | none ↦ modify (λ s. record s { runs = s.runs ++ row ∷ [] }) >> pure row
  ]

-- `create_run`, of a row with the status `created`
unfoldable pub create_run : RunRow → Repository RunRow
unfolding add_run
create_run row = transaction (do
  ensure_tenant row.tenant_id
  existing ← gets (λ s. existing_run row.tenant_id row.idempotency_key s.runs)
  elim existing [ some r ↦ pure r | none ↦ add_run row ])

unfoldable pub require_run : String → String → Repository (Unit {0})
require_run run_id tenant = do
  found ← gets (λ s. find_run run_id s.runs)
  raise_if (not (owned tenant found)) (not_found ("run " <> run_id <> " not found"))

unfoldable pub insert_event : AgentEvent → Repository AgentEvent
insert_event e = do
  taken ← gets (λ s. has_sequence e.run_id e.sequence s.events)
  raise_if taken (conflict ("event sequence conflict run=" <> e.run_id))
  modify (λ s. record s { events = e ∷ s.events })
  pure e

-- An event with the id of a stored one is that one.
unfoldable pub unless_stored : Option AgentEvent → Repository AgentEvent → Repository AgentEvent
unless_stored none m = m
unless_stored (some old) m = pure old

-- `append_event`
unfoldable pub append_event : AgentEvent → Repository AgentEvent
unfolding require_run insert_event unless_stored
append_event e = do
  raise_if (e.sensitive && e.safe_for_ui)
      (repository_error "sensitive events must not be safe_for_ui")
  transaction (do
    require_run e.run_id e.tenant_id
    dup ← gets (λ s. find_event e.event_id s.events)
    unless_stored dup (insert_event e))

-- An event with its number assigned.
abbrev pub numbered : AgentEvent → ℕ → AgentEvent
numbered e n = record e { sequence = n }

-- `return AgentEvent(…)`, within the transaction
unfoldable pub checked : Option AgentEvent → Repository AgentEvent
checked none = raise (validation_error "AgentEvent")
checked (some e) = pure e

unfoldable pub assign_next : AgentEvent → Repository AgentEvent
unfolding insert_event checked
assign_next e = do
  n ← gets (λ s. next_sequence e.run_id s.events)
  insert_event (numbered e n)
  checked (make_event (numbered e n))

-- The event with its payload redacted
abbrev pub redacted : (Fields → Fields) → AgentEvent → AgentEvent
redacted redact e = record e { payload = redact e.payload }

-- `append_next_event`: the event's id is `eid`, the given one or, where none is given, a new one. The
-- number of the given event is not read. Only a concurrent writer can take the number first, so the
-- retries are left out.
unfoldable pub append_next_event : AgentEvent → Repository AgentEvent
unfolding require_run assign_next unless_stored
append_next_event e = do
  raise_if (e.sensitive && e.safe_for_ui)
      (repository_error "sensitive events must not be safe_for_ui")
  redact ← gets (λ s. s.redact)
  transaction (do
    require_run e.run_id e.tenant_id
    dup ← gets (λ s. find_event e.event_id s.events)
    unless_stored dup (assign_next (redacted redact e)))

-- `RunEvent.sequence > after_sequence`
unfoldable pub is_after : ℤ → ℕ → Bool
is_after (pos n) k = ltb n k
is_after (negsuc n) k = true

-- `order_by(RunEvent.sequence.asc())`
unfoldable pub insert_sorted : AgentEvent → List AgentEvent → List AgentEvent
insert_sorted e [] = e ∷ []
insert_sorted e (f ∷ rows) =
    let rest = insert_sorted e rows in if leb e.sequence f.sequence then e ∷ f ∷ rows else f ∷ rest

unfoldable pub selected : String → ℤ → List AgentEvent → List AgentEvent
unfolding insert_sorted
selected run_id after [] = []
selected run_id after (e ∷ rows) =
    let rest = selected run_id after rows in
    if e.run_id == run_id && is_after after e.sequence then insert_sorted e rest else rest

-- `list_events`
unfoldable pub list_events : String → String → ℤ → ℕ → Repository (List AgentEvent)
unfolding require_run
list_events run_id tenant after limit = do
  raise_if (ltb limit 1 || ltb 5000 limit) (repository_error "limit must be 1..5000")
  require_run run_id tenant
  rows ← gets (λ s. selected run_id after s.events)
  pure (take limit rows)

-- `create_approval`
unfoldable pub create_approval : Approval → Repository Approval
unfolding require_run
create_approval a = transaction (do
  require_run a.run_id a.tenant_id
  taken ← gets (λ s. find_approval a.approval_id s.approvals)
  elim taken [
    | some _ ↦ raise (conflict ("approval " <> a.approval_id <> " already exists"))
    | none ↦ modify (λ s. record s { approvals = a ∷ s.approvals }) >> pure a
  ])

abbrev pub is_pending : ApprovalDecision → Bool
is_pending pending = true
is_pending _ = false

-- `expires is not None and now > expires`
abbrev pub is_expired : Option ℕ → ℕ → Bool
is_expired none now = false
is_expired (some at) now = ltb at now

-- `decision not in ("approved", "rejected")`
abbrev pub is_decision : ApprovalDecision → Bool
is_decision approved = true
is_decision rejected = true
is_decision _ = false

unfoldable pub store : Approval → Repository (Unit {0})
store a = modify (λ s. record s { approvals = put_approval a s.approvals })

-- The row that was found: the decision, or why it is refused.
unfoldable pub decide_row :
    Approval → String → ApprovalDecision → String → Option String → ℕ → Repository Approval
unfolding store
decide_row a tenant decision approver reason now =
    if not (a.tenant_id == tenant)
    then raise (not_found ("approval " <> a.approval_id <> " not found"))
    else if not (is_pending a.decision)
    then raise (conflict ("approval " <> a.approval_id <> " already decided"))
    else if is_expired a.expires_at now
    then (do
      store (record a { decision = expired; decided_at = some now })
      raise (conflict ("approval " <> a.approval_id <> " expired")))
    else (do
      store (record a {
        decision = decision;
        approver = some approver;
        reason = reason;
        decided_at = some now;
      })
      pure (record a {
        decision = decision;
        approver = some approver;
        reason = reason;
        decided_at = some now;
      }))

unfoldable pub decide_found :
    String
    → Option Approval
    → String
    → ApprovalDecision
    → String
    → Option String
    → ℕ
    → Repository Approval
unfolding decide_row
decide_found approval_id none tenant decision approver reason now =
    raise (not_found ("approval " <> approval_id <> " not found"))
decide_found approval_id (some a) tenant decision approver reason now =
    decide_row a tenant decision approver reason now

-- `decide_approval`
unfoldable pub decide_approval :
    String → String → ApprovalDecision → String → Option String → ℕ → Repository Approval
unfolding decide_found
decide_approval approval_id tenant decision approver reason now = do
  raise_if (not (is_decision decision)) (repository_error "decision must be approved|rejected")
  transaction (do
    found ← gets (λ s. find_approval approval_id s.approvals)
    decide_found approval_id found tenant decision approver reason now)
