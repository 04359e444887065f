-- ===== src/Persistence/Transactions.antt =====
-- What a method that raises leaves behind, and what a decision on an approval settles.
use agent_workbench.Base.{
  ℕ, String, ◌≡◌, ◌≢◌, refl, sym, ap, ◌∙◌, subst, Bool, true, false, not, Option, none, some, List,
  [], ◌∷◌, ◌==◌, string_eq, arith, eq_iff, if◌then◌else◌,
}
use agent_workbench.Base.Action.{
  Result, returned, raised, pure, raise, gets, modify, raise_if, ◌>>=◌, ◌>>◌,
}
use agent_workbench.Orchestrator.State.{ApprovalDecision, pending, approved, rejected, expired}
use agent_workbench.Persistence.Database.{
  Approval, Database, RepositoryError, Repository, transaction, find_approval, put_approval,
}
use agent_workbench.Persistence.Repository.{
  store, decide_found, decide_row, decide_approval, is_pending, is_expired, is_decision,
}

-- A method that leaves the database as it was where it raises.
pub record IsAtomic {A : Type 0} (m : Repository A) : Type 0 where
  pub at : (s : Database) (e : RepositoryError) → (m s).0 ≡ raised e → (m s).1 ≡ s

rolled_back :
    {A : Type 0} (r : Result RepositoryError A) (s t : Database) (e : RepositoryError)
    → (elim r as (λ _. Result RepositoryError A × Database) [
      | returned a ↦ (returned a, t)
      | raised x ↦ (raised x, s)
    ]).0
      ≡ raised e
    → (elim r as (λ _. Result RepositoryError A × Database) [
      | returned a ↦ (returned a, t)
      | raised x ↦ (raised x, s)
    ]).1
      ≡ s
rolled_back (returned a) s t e h = absurd (cc h)
rolled_back (raised x) s t e h = refl

transaction-IsAtomic : {A : Type 0} (m : Repository A) → IsAtomic (transaction m)
unfolding transaction
transaction-IsAtomic m = record { at = λ s e h. rolled_back (m s).0 s (m s).1 e h }

guard-IsAtomic :
    {A : Type 0} (b : Bool) (e : RepositoryError) (m : Repository A)
    → IsAtomic m
    → IsAtomic (raise_if b e >> m)
unfolding raise_if ◌>>◌ ◌>>=◌
guard-IsAtomic true e m h = record { at = λ s x p. refl }
guard-IsAtomic false e m h = record { at = h.at }

-- A decision that is refused leaves the database as it was. This holds of an expired approval too: the
-- mark that it expired is rolled back with the rest.
pub decide_approval-atomic :
    (id tenant : String) (d : ApprovalDecision) (approver : String) (reason : Option String)
    → (now : ℕ) → (s : Database) → (e : RepositoryError)
    → (decide_approval id tenant d approver reason now s).0 ≡ raised e
    → (decide_approval id tenant d approver reason now s).1 ≡ s
unfolding decide_approval
decide_approval-atomic id tenant d approver reason now =
    (guard-IsAtomic _ _ _ (transaction-IsAtomic _)).at

find_approval-put_approval :
    (new old : Approval) (rows : List Approval)
    → find_approval new.approval_id rows ≡ some old
    → find_approval new.approval_id (put_approval new rows) ≡ some new
unfolding find_approval put_approval
find_approval-put_approval new old [] h = absurd (cc h)
find_approval-put_approval new old (a ∷ rows) h = ground (
  arith,
  find_approval-put_approval new old rows,
  eq_iff a.approval_id new.approval_id,
  eq_iff new.approval_id new.approval_id,
)

-- The row that a decision is about is decided, and no longer pending.
Settles : String → (Result RepositoryError Approval × Database) → Type 0
Settles id p =
    (x : Approval)
    → p.0 ≡ returned x
    → (is_pending x.decision ≡ false) × (find_approval id p.1.approvals ≡ some x)

decision-Settles :
    (denied closed late : Bool) (e1 e2 e3 : RepositoryError) (lapsed new : Approval) (s : Database)
    → is_pending new.decision ≡ false
    → find_approval new.approval_id (put_approval new s.approvals) ≡ some new
    → Settles new.approval_id (
        (if denied
            then raise e1
            else if closed
            then raise e2
            else if late
            then store lapsed >> raise e3
            else store new >> pure new)
          s)
unfolding Settles raise pure modify store ◌>>◌ ◌>>=◌
decision-Settles true closed late e1 e2 e3 lapsed new s done found x h = absurd (cc h)
decision-Settles false true late e1 e2 e3 lapsed new s done found x h = absurd (cc h)
decision-Settles false false true e1 e2 e3 lapsed new s done found x h = absurd (cc h)
decision-Settles false false false e1 e2 e3 lapsed new s done found x h =
    subst
      (λ y.
        (is_pending y.decision ≡ false)
        × (find_approval new.approval_id (put_approval new s.approvals) ≡ some y))
      (cc h) (done, found)

decision-closed : (d : ApprovalDecision) → is_decision d ≡ true → is_pending d ≡ false
decision-closed approved h = refl
decision-closed rejected h = refl
decision-closed pending h = absurd (cc h)
decision-closed expired h = absurd (cc h)

decide_row-Settles :
    (a : Approval) (tenant : String) (d : ApprovalDecision) (approver : String)
    → (reason : Option String) → (now : ℕ) → (s : Database) → is_decision d ≡ true
    → find_approval a.approval_id s.approvals ≡ some a
    → Settles a.approval_id (decide_row a tenant d approver reason now s)
unfolding decide_row
decide_row-Settles a tenant d approver reason now s ok found =
    decision-Settles (not (a.tenant_id == tenant)) (not (is_pending a.decision))
      (is_expired a.expires_at now) _ _ _ _
      (record a { decision = d; approver = some approver; reason = reason; decided_at = some now })
      s (decision-closed d ok)
      (find_approval-put_approval
        (record a {
          decision = d;
          approver = some approver;
          reason = reason;
          decided_at = some now;
        })
        a s.approvals found)

row_refused :
    (denied closed late : Bool) (e1 e2 e3 : RepositoryError) (lapsed new x : Approval)
    → (s : Database) → closed ≡ true
    → ((if denied
          then raise e1
          else if closed
          then raise e2
          else if late
          then store lapsed >> raise e3
          else store new >> pure new)
        s).0
      ≢ returned x
unfolding raise
row_refused true closed late e1 e2 e3 lapsed new x s p h = cc h
row_refused false true late e1 e2 e3 lapsed new x s p h = cc h
row_refused false false late e1 e2 e3 lapsed new x s p h = cc p

decide_row-refused :
    (a : Approval) (tenant : String) (d : ApprovalDecision) (approver : String)
    → (reason : Option String) → (now : ℕ) → (s : Database) → (x : Approval)
    → is_pending a.decision ≡ false
    → (decide_row a tenant d approver reason now s).0 ≢ returned x
unfolding decide_row
decide_row-refused a tenant d approver reason now s x closed =
    row_refused (not (a.tenant_id == tenant)) (not (is_pending a.decision))
      (is_expired a.expires_at now) _ _ _ _ _ x s (ap not closed)

commit-Settles :
    (id : String) (r : Result RepositoryError Approval) (s t : Database)
    → Settles id (r, t)
    → Settles id (elim r [ returned a ↦ (returned a, t) | raised e ↦ (raised e, s) ])
unfolding Settles
commit-Settles id (returned a) s t h = h
commit-Settles id (raised e) s t h = λ x p. absurd (cc p)

commit_returns :
    (r : Result RepositoryError Approval) (s t : Database) (x : Approval)
    → (elim r as (λ _. Result RepositoryError Approval × Database) [
      | returned a ↦ (returned a, t)
      | raised e ↦ (raised e, s)
    ]).0
      ≡ returned x
    → r ≡ returned x
commit_returns (returned a) s t x h = h
commit_returns (raised e) s t x h = absurd (cc h)

lookup-same :
    (id : String) (rows : List Approval) (a : Approval)
    → find_approval id rows ≡ some a
    → a.approval_id ≡ id
unfolding find_approval
lookup-same id [] a h = absurd (cc h)
lookup-same id (r ∷ rows) a h = ground (arith, lookup-same id rows a, eq_iff r.approval_id id)

refused-Settles :
    (id : String) (e : RepositoryError) (s : Database) → Settles id (raise {A = Approval} e s)
unfolding Settles raise
refused-Settles id e s x h = absurd (cc h)

found-Settles :
    (id : String) (o : Option Approval) (tenant : String) (d : ApprovalDecision) (approver : String)
    → (reason : Option String) → (now : ℕ) → (s : Database) → is_decision d ≡ true
    → find_approval id s.approvals ≡ o
    → Settles id (decide_found id o tenant d approver reason now s)
unfolding decide_found
found-Settles id none tenant d approver reason now s ok found = refused-Settles id _ s
found-Settles id (some a) tenant d approver reason now s ok found =
    subst (λ i. Settles i (decide_row a tenant d approver reason now s))
      (lookup-same id s.approvals a found)
      (decide_row-Settles a tenant d approver reason now s ok (
        subst (λ i. find_approval i s.approvals ≡ some a) (sym (lookup-same id s.approvals a found))
          found))

decide_approval-Settles :
    (id tenant : String) (d : ApprovalDecision) (approver : String) (reason : Option String)
    → (now : ℕ) → (s : Database) → Settles id (decide_approval id tenant d approver reason now s)
unfolding decide_approval raise_if raise ◌>>◌ ◌>>=◌ gets transaction
decide_approval-Settles id tenant approved approver reason now s = commit-Settles id _ s _ (
    found-Settles id (find_approval id s.approvals) tenant approved approver reason now s refl refl)
decide_approval-Settles id tenant rejected approver reason now s = commit-Settles id _ s _ (
    found-Settles id (find_approval id s.approvals) tenant rejected approver reason now s refl refl)
decide_approval-Settles id tenant pending approver reason now s = refused-Settles id _ s
decide_approval-Settles id tenant expired approver reason now s = refused-Settles id _ s

unwrapped : (b a : Approval) → some b ≡ some a → b ≡ a
unwrapped b a h = cc h

found_refused :
    (id : String) (o : Option Approval) (a : Approval) (tenant : String) (d : ApprovalDecision)
    → (approver : String) → (reason : Option String) → (now : ℕ) → (s : Database) → (y : Approval)
    → o ≡ some a
    → is_pending a.decision ≡ false
    → (decide_found id o tenant d approver reason now s).0 ≢ returned y
unfolding decide_found
found_refused id none a tenant d approver reason now s y found closed = absurd (cc found)
found_refused id (some b) a tenant d approver reason now s y found closed =
    decide_row-refused b tenant d approver reason now s y
      (ap (λ (k : Approval). is_pending k.decision) (unwrapped b a found) ∙ closed)

decide_approval-refused :
    (id : String) (a : Approval) (tenant : String) (d : ApprovalDecision) (approver : String)
    → (reason : Option String) → (now : ℕ) → (s : Database) → (y : Approval)
    → find_approval id s.approvals ≡ some a
    → is_pending a.decision ≡ false
    → (decide_approval id tenant d approver reason now s).0 ≢ returned y
unfolding decide_approval raise_if raise ◌>>◌ ◌>>=◌ gets transaction
decide_approval-refused id a tenant approved approver reason now s y found closed h =
    found_refused id (find_approval id s.approvals) a tenant approved approver reason now s y found
      closed (commit_returns _ s _ y h)
decide_approval-refused id a tenant rejected approver reason now s y found closed h =
    found_refused id (find_approval id s.approvals) a tenant rejected approver reason now s y found
      closed (commit_returns _ s _ y h)
decide_approval-refused id a tenant pending approver reason now s y found closed h = cc h
decide_approval-refused id a tenant expired approver reason now s y found closed h = cc h

-- An approval is decided at most once: after a decision that was taken, no other on the same
-- approval is, whoever asks and whatever it says.
pub decide_approval-once :
    (id tenant other : String) (d d' : ApprovalDecision) (approver approver' : String)
    → (reason reason' : Option String) → (now now' : ℕ) → (s : Database) → (x y : Approval)
    → (decide_approval id tenant d approver reason now s).0 ≡ returned x
    → (decide_approval id other d' approver' reason' now'
        (decide_approval id tenant d approver reason now s).1).0
      ≢ returned y
unfolding Settles
decide_approval-once id tenant other d d' approver approver' reason reason' now now' s x y taken =
    let (closed, found) = decide_approval-Settles id tenant d approver reason now s x taken in
    decide_approval-refused id x other d' approver' reason' now'
      (decide_approval id tenant d approver reason now s).1 y found closed
