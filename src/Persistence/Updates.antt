-- ===== src/Persistence/Updates.antt =====
-- More of SqlAlchemyRepository (packages/persistence/repositories.py): the update of a run, the reads
-- of approvals, and the Approval contract of packages/contracts/approvals.py that their rows keep.
use agent_workbench.Base.{
  ℕ, String, ◌<>◌, Bool, true, false, not, ◌&&◌, Option, none, some, List, [], ◌∷◌, ◌==◌, string_eq,
  leb, keep, strip, if◌then◌else◌,
}
use agent_workbench.Base.Action.{pure, raise, gets, modify, ◌>>=◌, ◌>>◌}
use agent_workbench.Base.Json.{Fields}
use agent_workbench.Contracts.Events.{optional_strip}
use agent_workbench.Contracts.Fields.{is_id, within, optional_within}
use agent_workbench.Orchestrator.State.{ApprovalDecision, pending, approved, rejected, expired}
use agent_workbench.Persistence.Database.{
  RunRow, Approval, not_found, Repository, transaction, find_approval,
}
use agent_workbench.Persistence.Repository.{get_run_row, require_run}

-- The fields that the callers of `update_run` give.
pub record RunChanges : Type 0 where
  pub status : Option String
  pub current_state : Option String
  pub budget : Option Fields

abbrev pub given : {A : Type 0} → Option A → A → A
given none old = old
given (some new) old = new

unfoldable pub changed : RunChanges → RunRow → RunRow
changed c r = record r {
  status = given c.status r.status;
  current_state = given c.current_state r.current_state;
  budget = given c.budget r.budget;
}

-- The row of a run takes its new fields.
unfoldable pub put_run : RunRow → List RunRow → List RunRow
put_run new [] = []
put_run new (r ∷ rows) = if r.id == new.id then new ∷ rows else r ∷ put_run new rows

-- `update_run`
unfoldable pub update_run : String → String → RunChanges → Repository RunRow
update_run run_id tenant changes = transaction (do
  row ← get_run_row run_id tenant
  modify (λ s. record s { runs = put_run (changed changes row) s.runs })
  pure (changed changes row))

unfoldable pub of_tenant : String → String → Option Approval → Repository Approval
of_tenant approval_id tenant none = raise (not_found ("approval " <> approval_id <> " not found"))
of_tenant approval_id tenant (some a) =
    if a.tenant_id == tenant
    then pure a
    else raise (not_found ("approval " <> approval_id <> " not found"))

-- `get_approval`
unfoldable pub get_approval : String → String → Repository Approval
unfolding of_tenant
get_approval approval_id tenant = do
  found ← gets (λ s. find_approval approval_id s.approvals)
  of_tenant approval_id tenant found

-- `order_by(ApprovalRow.requested_at.asc())`
unfoldable pub insert_by_time : Approval → List Approval → List Approval
insert_by_time a [] = a ∷ []
insert_by_time a (b ∷ rows) =
    let rest = insert_by_time a rows in
    if leb a.requested_at b.requested_at then a ∷ b ∷ rows else b ∷ rest

unfoldable pub by_time : List Approval → List Approval
unfolding insert_by_time
by_time [] = []
by_time (a ∷ rows) = insert_by_time a (by_time rows)

-- `list_approvals`
unfoldable pub list_approvals : String → String → Repository (List Approval)
list_approvals run_id tenant = do
  require_run run_id tenant
  gets (λ s. by_time (keep (λ a. a.run_id == run_id) s.approvals))

-- `str_strip_whitespace=True`
unfoldable pub stripped_approval : Approval → Approval
stripped_approval a = record a {
  approval_id = strip a.approval_id;
  run_id = strip a.run_id;
  tenant_id = strip a.tenant_id;
  action_id = strip a.action_id;
  requested_by = strip a.requested_by;
  approver = optional_strip a.approver;
  reason = optional_strip a.reason;
}

abbrev optional_between : Option String → Bool
optional_between none = true
optional_between (some s) = within 1 256 s

abbrev pub has_approver : Option String → Bool
has_approver none = false
has_approver (some s) = not (s == "")

abbrev pub not_before : ℕ → Option ℕ → Bool
not_before start none = false
not_before start (some at) = leb start at

abbrev pub fits_decision : ApprovalDecision → Approval → Bool
fits_decision pending a = elim a.decided_at [ none ↦ true | some _ ↦ false ]
fits_decision approved a = not_before a.requested_at a.decided_at && has_approver a.approver
fits_decision rejected a = not_before a.requested_at a.decided_at && has_approver a.approver
fits_decision expired a = not_before a.requested_at a.decided_at

-- `_decision_consistency`
unfoldable pub decision_consistency : Approval → Bool
decision_consistency a =
    fits_decision a.decision a
    && (elim a.expires_at [ none ↦ true | some at ↦ leb a.requested_at at ])

-- The field constraints
unfoldable pub is_valid_approval : Approval → Bool
is_valid_approval a =
    is_id a.approval_id
    && is_id a.run_id
    && is_id a.tenant_id
    && is_id a.action_id
    && within 1 256 a.requested_by
    && optional_between a.approver
    && optional_within 2000 a.reason
    && decision_consistency a

-- `Approval(…)`: the approval, or none for a ValidationError.
unfoldable pub make_approval : Approval → Option Approval
make_approval a =
    if is_valid_approval (stripped_approval a) then some (stripped_approval a) else none
