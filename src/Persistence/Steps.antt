-- ===== src/Persistence/Steps.antt =====
-- How a method's steps run, one equation for each.
use agent_workbench.Base.{String, ◌<>◌, ◌≡◌, refl, ap, Bool, true, false, not}
use agent_workbench.Base.Action.{Result, returned, raised, gets, raise_if, ◌>>=◌, ◌>>◌}
use agent_workbench.Persistence.Database.{
  Database, RepositoryError, not_found, Repository, transaction, find_run,
}
use agent_workbench.Persistence.Repository.{owned, require_run}

module _ {A : Type 0} where
  pub pass :
      (b : Bool) (e : RepositoryError) (m : Repository A) (s : Database)
      → b ≡ false
      → (raise_if b e >> m) s ≡ m s
  unfolding raise_if ◌>>◌ ◌>>=◌
  pass true e m s p = absurd (cc p)
  pass false e m s p = refl

  pub stop :
      (b : Bool) (e : RepositoryError) (m : Repository A) (s : Database)
      → b ≡ true
      → (raise_if b e >> m) s ≡ (raised e, s)
  unfolding raise_if ◌>>◌ ◌>>=◌
  stop true e m s p = refl
  stop false e m s p = absurd (cc p)

  abbrev finish :
      Database → Result RepositoryError A × Database → Result RepositoryError A × Database
  finish s p = elim p.0 [ returned a ↦ (returned a, p.1) | raised e ↦ (raised e, s) ]

  pub commit :
      (m : Repository A) (s t : Database) (a : A)
      → m s ≡ (returned a, t)
      → transaction m s ≡ (returned a, t)
  unfolding transaction
  commit m s t a h = ap (finish s) h

  pub rollback :
      (m : Repository A) (s t : Database) (e : RepositoryError)
      → m s ≡ (raised e, t)
      → transaction m s ≡ (raised e, s)
  unfolding transaction
  rollback m s t e h = ap (finish s) h

  pub own_run :
      (run_id tenant : String) (m : Repository A) (s : Database)
      → owned tenant (find_run run_id s.runs) ≡ true
      → (require_run run_id tenant >> m) s ≡ m s
  unfolding require_run gets ◌>>=◌ ◌>>◌
  own_run run_id tenant m s own = pass _ _ m s (ap not own)

  pub foreign_run :
      (run_id tenant : String) (m : Repository A) (s : Database)
      → owned tenant (find_run run_id s.runs) ≡ false
      → (require_run run_id tenant >> m) s
        ≡ (raised (not_found ("run " <> run_id <> " not found")), s)
  unfolding require_run gets ◌>>=◌ ◌>>◌
  foreign_run run_id tenant m s foreign = stop _ _ m s (ap not foreign)
