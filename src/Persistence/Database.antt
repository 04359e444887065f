-- ===== src/Persistence/Database.antt =====
-- The tables that the repository reads and writes, and its exceptions (packages/persistence). The
-- times of rows are left out but where a decision depends on them; a session sees the committed rows.
use agent_workbench.Base.{
  ℕ, ◌+◌, String, Bool, false, ◌&&◌, Option, none, some, List, [], ◌∷◌, ◌==◌, string_eq, number_eq,
  ltb, any, if◌then◌else◌,
}
use agent_workbench.Base.Action.{Action, returned, raised}
use agent_workbench.Base.Json.{Fields}
use agent_workbench.Contracts.Events.{AgentEvent}
use agent_workbench.Orchestrator.State.{ApprovalDecision}

-- Run of models.py
pub record RunRow : Type 0 where
  pub id : String
  pub tenant_id : String
  pub created_by : String
  pub objective : String
  pub status : String
  pub current_state : String
  pub budget : Fields
  pub idempotency_key : Option String
  pub trace_id : Option String
  pub correlation_id : Option String

-- Approval, and its row
pub record Approval : Type 0 where
  pub approval_id : String
  pub run_id : String
  pub tenant_id : String
  pub action_id : String
  pub requested_by : String
  pub approver : Option String
  pub decision : ApprovalDecision
  pub reason : Option String
  pub requested_at : ℕ
  pub decided_at : Option ℕ
  pub expires_at : Option ℕ

-- The tables, and the repository's `_redact`
pub record Database : Type 0 where
  pub tenants : List String
  pub runs : List RunRow
  -- the latest first
  pub events : List AgentEvent
  pub approvals : List Approval
  pub redact : Fields → Fields

-- The exceptions of a method; a ValidationError is raised by a contract, and is no RepositoryError.
pub data RepositoryError : Type 0 where
  repository_error not_found conflict validation_error : String → RepositoryError

abbrev pub Repository : Type 0 → Type 0
Repository A = Action Database RepositoryError A

-- `transaction`: commit on success, rollback on an exception.
unfoldable pub transaction : {A : Type 0} → Repository A → Repository A
transaction m s =
    let (r, t) = m s in elim r [ returned a ↦ (returned a, t) | raised e ↦ (raised e, s) ]

-- `s.get(Run, run_id)`
unfoldable pub find_run : String → List RunRow → Option RunRow
find_run run_id [] = none
find_run run_id (r ∷ rows) = if r.id == run_id then some r else find_run run_id rows

unfoldable pub find_by_key : String → String → List RunRow → Option RunRow
find_by_key tenant key [] = none
find_by_key tenant key (r ∷ rows) =
    let rest = find_by_key tenant key rows in
    if r.tenant_id == tenant && (elim r.idempotency_key [ none ↦ false | some k ↦ k == key ])
    then some r
    else rest

unfoldable pub find_event : String → List AgentEvent → Option AgentEvent
find_event event_id [] = none
find_event event_id (e ∷ rows) = if e.event_id == event_id then some e else find_event event_id rows

unfoldable pub find_approval : String → List Approval → Option Approval
find_approval approval_id [] = none
find_approval approval_id (a ∷ rows) =
    if a.approval_id == approval_id then some a else find_approval approval_id rows

-- `_next_sequence_in`: MAX(sequence) + 1 over the events of a run, from 0.
unfoldable pub next_sequence : String → List AgentEvent → ℕ
next_sequence run_id [] = 0
next_sequence run_id (e ∷ rows) =
    let rest = next_sequence run_id rows in
    if e.run_id == run_id && ltb rest (e.sequence + 1) then e.sequence + 1 else rest

-- The constraint on (run_id, sequence).
unfoldable pub has_sequence : String → ℕ → List AgentEvent → Bool
has_sequence run_id n = any (λ e. e.run_id == run_id && e.sequence == n)

-- The row of an approval takes a decision.
unfoldable pub put_approval : Approval → List Approval → List Approval
put_approval new [] = []
put_approval new (a ∷ rows) =
    if a.approval_id == new.approval_id then new ∷ rows else a ∷ put_approval new rows
