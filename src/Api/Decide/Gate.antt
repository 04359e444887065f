-- ===== src/Api/Decide/Gate.antt =====
-- What has to happen before the decision endpoint lets a graph go on.
use agent_workbench.Base.{
  ◌≡◌, refl, ◌∙◌, subst, String, Bool, true, false, not, ◌⊎◌, inl, inr, Option, none, some, List,
  ◌==◌, string_eq, eq_iff, arith, if◌then◌else◌,
}
use agent_workbench.Base.Action.{
  Result, returned, raised, pure, raise, gets, modify, raise_if, ◌>>=◌, ◌>>◌,
}
use agent_workbench.Base.Dict.{lookup}
use agent_workbench.Base.Keeps.{
  Leads, Keeps-pure, Keeps-raise, Leads-raise_if, Leads-if, Keeps-weaken,
}
use agent_workbench.Orchestrator.Clients.{Clients}
use agent_workbench.Orchestrator.Graph.Core.{Effect}
use agent_workbench.Orchestrator.State.{RunState, ApprovalDecision}
use agent_workbench.Persistence.Database.{
  Approval, Database, RepositoryError, Repository, RunRow, find_run,
}
use agent_workbench.Persistence.Repository.{get_run, get_run_row, decide_approval}
use agent_workbench.Security.Authorization.{AuthorizationError}
use agent_workbench.Api.Store.{Decided, Gateway, save}
use agent_workbench.Api.Requests.{
  escaped, ApiError, http, DecideCall, Endpoint, missing_only, in_repository, authorized,
}
use agent_workbench.Api.Resume.{is_paused, sync, conclude_rejected, resume_state, maybe_resume}
use agent_workbench.Api.Decide.{reply_of, decision_of, finish, decide_new, decide_cached, decide}

decision_of-approved :
    (s : String) (d : ApprovalDecision)
    → decision_of s ≡ some d
    → (s == "rejected") ≡ false
    → (s ≡ "approved") × (d ≡ ApprovalDecision.approved)
unfolding decision_of
decision_of-approved s d h other = (ground (arith, eq_iff s "approved"), ground arith)

not-false : (b : Bool) → not b ≡ false → b ≡ true
not-false true h = refl
not-false false h = absurd (cc h)

guarded_kept :
    (b : Bool) (e : RepositoryError) (r : RunRow) (s : Database)
    → ((raise_if b e >> pure r) s).1 ≡ s
unfolding raise_if pure ◌>>◌ ◌>>=◌
guarded_kept true e r s = refl
guarded_kept false e r s = refl

row_kept :
    (o : Option RunRow) (b : RunRow → Bool) (e : RepositoryError) (s : Database)
    → ((elim o as (λ _. Repository RunRow) [ none ↦ raise e | some r ↦ raise_if (b r) e >> pure r ])
        s).1
      ≡ s
unfolding raise
row_kept none b e s = refl
row_kept (some r) b e s = guarded_kept (b r) e r s

-- Reading a run changes nothing.
get_run_kept : (run_id tenant : String) (s : Database) → (get_run run_id tenant s).1 ≡ s
unfolding get_run get_run_row gets ◌>>=◌
get_run_kept run_id tenant s =
    row_kept (find_run run_id s.runs) (λ r. not (r.tenant_id == tenant)) _ s

module _ (c : Clients) (d : DecideCall) (log : List Effect) (db : Database) where
  -- No graph went on, and nothing was stored.
  abbrev Untouched : Gateway c.World → Type 0
  Untouched g = (g.effects ≡ log) × (g.db ≡ db)

  abbrev Still : Gateway c.World → Type 0
  Still g = g.effects ≡ log

  -- The decision is an approval, and it was stored for an approval of this run.
  abbrev pub ApprovalStored : Type 0
  ApprovalStored =
      (d.body.decision ≡ "approved")
      × ((a : Approval) × ((decide_approval d.approval_id d.identity.tenant_id
              ApprovalDecision.approved d.body.approver d.body.reason d.around.now db).0
            ≡ returned a)
          × ((a.run_id == d.run_id) ≡ true))

  abbrev pub OnlyApproved : Gateway c.World → Type 0
  OnlyApproved g = (g.effects ≡ log) ⊎ ApprovalStored

  weaker : (g : Gateway c.World) → Untouched g → OnlyApproved g
  weaker g h = inl h.0

  quiet : (g : Gateway c.World) → Still g → OnlyApproved g
  quiet g h = inl h

  allowed :
      {B : Type 0} (r : Result AuthorizationError (Unit {0})) (k : Endpoint c.World B)
      → Leads Untouched OnlyApproved k
      → Leads Untouched OnlyApproved (authorized c r >> k)
  unfolding authorized pure raise ◌>>◌ ◌>>=◌
  allowed (returned u) k next = record { at = λ g h. next.at g h }
  allowed (raised e) k next = record { at = weaker }

  resumed :
      (paused rejected : Bool) (h x y : Gateway c.World)
      → ((rejected ≡ false) → ApprovalStored)
      → h.effects ≡ log
      → x.effects ≡ log
      → OnlyApproved (if not paused then h else if rejected then x else y)
  resumed false rejected h x y stored eh ex = inl eh
  resumed true true h x y stored eh ex = inl ex
  resumed true false h x y stored eh ex = inr (stored refl)

  resume_state-OnlyApproved :
      (r : RunState) (g : Gateway c.World)
      → ((d.body.decision == "rejected") ≡ false → ApprovalStored)
      → g.effects ≡ log
      → OnlyApproved (resume_state c d r g)
  unfolding resume_state conclude_rejected save
  resume_state-OnlyApproved r g stored h =
      resumed (is_paused (sync c d r g).current_state) (d.body.decision == "rejected") _ _ _ stored
        h h

  resume-OnlyApproved :
      (o : Option RunState) (g : Gateway c.World)
      → ((d.body.decision == "rejected") ≡ false → ApprovalStored)
      → g.effects ≡ log
      → OnlyApproved (elim o [ none ↦ g | some r ↦ resume_state c d r g ])
  resume-OnlyApproved none g stored h = inl h
  resume-OnlyApproved (some r) g stored h = resume_state-OnlyApproved r g stored h

  after_result :
      {A B : Type 0} (r : Result RepositoryError A) (convert : RepositoryError → ApiError)
      → (f : A → Endpoint c.World B) → (g h : Gateway c.World) → h.effects ≡ log
      → ((a : A) → r ≡ returned a → OnlyApproved (f a h).1)
      → OnlyApproved
          (((λ _. elim r as (λ _. Result ApiError A × Gateway c.World) [
            | returned a ↦ (returned a, h)
            | raised e ↦ (raised (convert e), h)
          ])
              >>= f)
            g).1
  unfolding ◌>>=◌
  after_result (returned a) convert f g h still next = next a refl
  after_result (raised e) convert f g h still next = inl still

  after_method :
      {A B : Type 0} (m : Repository A) (convert : RepositoryError → ApiError)
      → (f : A → Endpoint c.World B) → (g : Gateway c.World) → g.effects ≡ log
      → ((a : A) → (m g.db).0 ≡ returned a → OnlyApproved (f a (record g { db = (m g.db).1 })).1)
      → OnlyApproved ((in_repository c m convert >>= f) g).1
  unfolding in_repository ◌>>=◌
  after_method m convert f g still next = after_result (m g.db).0 convert f g _ still next

  answered-OnlyApproved :
      (f : Gateway c.World → Gateway c.World)
      → ((g : Gateway c.World) → (f g).effects ≡ g.effects)
      → ((d.body.decision == "rejected") ≡ false → ApprovalStored)
      → Leads {E = ApiError} Still OnlyApproved
          (modify f >> (modify (maybe_resume c d) >> pure (reply_of c d)))
  unfolding maybe_resume modify pure ◌>>◌ ◌>>=◌
  answered-OnlyApproved f same stored = record {
    at = λ g h. resume-OnlyApproved (lookup d.run_id (f g).run_states) (f g) stored (same g ∙ h);
  }

  finish-OnlyApproved :
      ((d.body.decision == "rejected") ≡ false → ApprovalStored)
      → Leads Still OnlyApproved (finish c d)
  unfolding finish ◌>>◌
  finish-OnlyApproved stored = record {
    at = λ g h.
        after_method _ escaped _ g h
          (λ u kept. (answered-OnlyApproved _ (λ x. refl) stored).at _ h);
  }

  run_checked :
      (a : Approval)
      → ((a.run_id == d.run_id) ≡ true → (d.body.decision == "rejected") ≡ false → ApprovalStored)
      → (g : Gateway c.World) → g.effects ≡ log
      → OnlyApproved
          ((raise_if (not (a.run_id == d.run_id)) (http 404 "not_found" "not found") >> finish c d)
            g).1
  run_checked a stored g h =
      (Leads-raise_if (not (a.run_id == d.run_id)) _ (finish c d) quiet
          (λ same. finish-OnlyApproved (stored (not-false (a.run_id == d.run_id) same)))).at
        g h

  decided :
      (decision : ApprovalDecision) (a : Approval)
      → decision_of d.body.decision ≡ some decision
      → (decide_approval d.approval_id d.identity.tenant_id decision d.body.approver d.body.reason
          d.around.now db).0
        ≡ returned a
      → (a.run_id == d.run_id) ≡ true
      → (d.body.decision == "rejected") ≡ false
      → ApprovalStored
  decided decision a given taken same other =
      let (text, which) = decision_of-approved d.body.decision decision given other in
      let stored =
        subst
          (λ x.
            (decide_approval d.approval_id d.identity.tenant_id x d.body.approver d.body.reason
              d.around.now db).0
            ≡ returned a)
          which taken in
      (text, (a, stored, same))

  decide_new-OnlyApproved :
      (o : Option ApprovalDecision)
      → decision_of d.body.decision ≡ o
      → Leads Untouched OnlyApproved (decide_new c d o)
  unfolding decide_new
  decide_new-OnlyApproved none given = Keeps-weaken _ weaker (Keeps-raise _)
  decide_new-OnlyApproved (some decision) given = record {
    at = λ g h. after_method _ missing_only _ g h.0 (λ row found.
        after_method _ _ _ _ h.0 (λ a taken.
          run_checked a
            (decided decision a given (
              subst
                (λ x.
                  (decide_approval d.approval_id d.identity.tenant_id decision d.body.approver
                    d.body.reason d.around.now x).0
                  ≡ returned a)
                (get_run_kept d.run_id d.identity.tenant_id g.db ∙ h.1) taken))
            _ h.0));
  }

  decide_cached-OnlyApproved :
      (o : Option Decided) → Leads Untouched OnlyApproved (decide_cached c d o)
  unfolding decide_cached
  decide_cached-OnlyApproved none = decide_new-OnlyApproved _ refl
  decide_cached-OnlyApproved (some reply) =
      Leads-if (reply.run_id == d.run_id) _ _ (λ same. Keeps-weaken _ weaker (Keeps-pure reply))
        (λ other. decide_new-OnlyApproved _ refl)

  cached-OnlyApproved :
      (f : Gateway c.World → Option Decided)
      → Leads Untouched OnlyApproved (gets f >>= decide_cached c d)
  unfolding gets ◌>>=◌
  cached-OnlyApproved f = record { at = λ g h. (decide_cached-OnlyApproved (f g)).at g h }

  decide-OnlyApproved_from : Leads Untouched OnlyApproved (decide c d)
  unfolding decide
  decide-OnlyApproved_from = allowed _ _ (
      Leads-raise_if _ _ _ weaker (λ h1. Leads-raise_if _ _ _ weaker (λ h2.
        Leads-raise_if _ _ _ weaker
          (λ h3. Leads-raise_if _ _ _ weaker (λ h4. cached-OnlyApproved _)))))

-- The decision endpoint lets no graph go on, so that no tool is called and no event of a graph is
-- written, unless the request says approved and the repository has just stored that approval for
-- an approval of the run in the URL: not for a repeated, refused, expired or rejected decision.
pub decide-OnlyApproved :
    (c : Clients) (d : DecideCall) (g : Gateway c.World)
    → OnlyApproved c d g.effects g.db (decide c d g).1
decide-OnlyApproved c d g = (decide-OnlyApproved_from c d g.effects g.db).at g (refl, refl)
