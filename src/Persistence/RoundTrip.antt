-- ===== src/Persistence/RoundTrip.antt =====
-- An update of a run, and the reads after it.
use agent_workbench.Base.{
  String, ◌<>◌, ◌≡◌, ◌≢◌, refl, sym, ap, ◌∙◌, subst, Bool, true, not, none, some, List, [], ◌∷◌,
  ◌==◌, string_eq, arith, eq_iff,
}
use agent_workbench.Base.Action.{
  Result, returned, raised, pure, raise, gets, modify, raise_if, ◌>>=◌, ◌>>◌,
}
use agent_workbench.Persistence.Database.{
  RunRow, Database, RepositoryError, Repository, transaction, find_run, not_found,
}
use agent_workbench.Persistence.Repository.{get_run, get_run_row}
use agent_workbench.Persistence.Updates.{RunChanges, changed, put_run, update_run}

find_run-same :
    (run_id : String) (rows : List RunRow) (r : RunRow)
    → find_run run_id rows ≡ some r
    → r.id ≡ run_id
unfolding find_run
find_run-same run_id [] r h = absurd (cc h)
find_run-same run_id (x ∷ rows) r h =
    ground (arith, find_run-same run_id rows r, eq_iff x.id run_id)

find_run-put_run :
    (new r : RunRow) (rows : List RunRow)
    → find_run new.id rows ≡ some r
    → find_run new.id (put_run new rows) ≡ some new
unfolding find_run put_run
find_run-put_run new r [] h = absurd (cc h)
find_run-put_run new r (x ∷ rows) h =
    ground (arith, find_run-put_run new r rows, eq_iff x.id new.id, eq_iff new.id new.id)

find_run-put_run_other :
    (other : String) (new : RunRow) (rows : List RunRow)
    → other ≢ new.id
    → find_run other (put_run new rows) ≡ find_run other rows
unfolding find_run put_run
find_run-put_run_other other new [] h = refl
find_run-put_run_other other new (x ∷ rows) h = ground (
  arith,
  find_run-put_run_other other new rows,
  eq_iff x.id new.id,
  eq_iff x.id other,
  eq_iff new.id other,
)

module _ {A B : Type 0} where
  bind_returned :
      (m : Repository A) (f : A → Repository B) (s t : Database) (a : A)
      → m s ≡ (returned a, t)
      → (m >>= f) s ≡ f a t
  unfolding ◌>>=◌
  bind_returned m f s t a h =
      ap
        (λ p. elim p.0 as (λ _. Result RepositoryError B × Database) [
          | returned x ↦ f x p.1
          | raised e ↦ (raised e, p.1)
        ])
        h

transaction_returned :
    {A : Type 0} (m : Repository A) (s t : Database) (a : A)
    → m s ≡ (returned a, t)
    → transaction m s ≡ (returned a, t)
unfolding transaction
transaction_returned {A} m s t a h =
    ap
      (λ p. elim p.0 as (λ _. Result RepositoryError A × Database) [
        | returned x ↦ (returned x, p.1)
        | raised e ↦ (raised e, s)
      ])
      h

abbrev own_row : Bool → RunRow → RepositoryError → Repository RunRow
own_row b r e = raise_if (not b) e >> pure r

get_run_row-found :
    (run_id tenant : String) (s : Database) (r : RunRow)
    → find_run run_id s.runs ≡ some r
    → (r.tenant_id == tenant) ≡ true
    → get_run_row run_id tenant s ≡ (returned r, s)
unfolding get_run_row gets raise_if pure ◌>>=◌ ◌>>◌
get_run_row-found run_id tenant s r found own =
    ap
      (λ o.
        (elim o as (λ _. Repository RunRow) [
          | none ↦ raise (not_found ("run " <> run_id <> " not found"))
          | some r ↦
              raise_if (not (r.tenant_id == tenant)) (not_found ("run " <> run_id <> " not found"))
              >> pure r
        ])
          s)
      found
    ∙ ap (λ b. own_row b r (not_found ("run " <> run_id <> " not found")) s) own

abbrev updated : RunChanges → RunRow → Database → Database
updated changes r s = record s { runs = put_run (changed changes r) s.runs }

-- What `update_run` does with the row
abbrev put_changed : RunChanges → RunRow → Repository RunRow
put_changed changes row =
    modify (λ s. record s { runs = put_run (changed changes row) s.runs })
    >> pure (changed changes row)

update_run-found :
    (run_id tenant : String) (changes : RunChanges) (s : Database) (r : RunRow)
    → get_run_row run_id tenant s ≡ (returned r, s)
    → update_run run_id tenant changes s ≡ (returned (changed changes r), updated changes r s)
unfolding update_run modify pure ◌>>◌ ◌>>=◌
update_run-found run_id tenant changes s r found =
    transaction_returned (get_run_row run_id tenant >>= put_changed changes) s (updated changes r s)
      (changed changes r)
      (bind_returned (get_run_row run_id tenant) (put_changed changes) s s r found)

find_run-updated :
    (run_id : String) (changes : RunChanges) (s : Database) (r : RunRow)
    → find_run run_id s.runs ≡ some r
    → find_run run_id (updated changes r s).runs ≡ some (changed changes r)
unfolding changed
find_run-updated run_id changes s r found =
    let same = find_run-same run_id s.runs r found in
    subst (λ i. find_run i (updated changes r s).runs ≡ some (changed changes r)) same
      (find_run-put_run (changed changes r) r s.runs
        (subst (λ i. find_run i s.runs ≡ some r) (sym same) found))

-- An update of a tenant's own run returns the row with its new fields, get_run returns that row
-- afterwards, and every other run is as it was.
pub update_run-get_run :
    (run_id tenant : String) (changes : RunChanges) (s : Database) (r : RunRow)
    → find_run run_id s.runs ≡ some r
    → r.tenant_id ≡ tenant
    → let t = (update_run run_id tenant changes s).1 in
      ((update_run run_id tenant changes s).0 ≡ returned (changed changes r))
      × ((get_run run_id tenant t).0 ≡ returned (changed changes r))
      × ((other : String) → other ≢ run_id → find_run other t.runs ≡ find_run other s.runs)
unfolding get_run changed
update_run-get_run run_id tenant changes s r found own =
    let mine : (r.tenant_id == tenant) ≡ true = (eq_iff r.tenant_id tenant).1 own in
    let done =
      update_run-found run_id tenant changes s r (get_run_row-found run_id tenant s r found mine) in
    let after = find_run-updated run_id changes s r found in
    (
      ap (λ p. p.0) done,
      ap (λ p. (get_run_row run_id tenant p.1).0) done
          ∙ ap (λ p. p.0) (get_run_row-found run_id tenant (updated changes r s) _ after mine),
      λ other apart.
          ap (λ p. find_run other p.1.runs) done
          ∙ find_run-put_run_other other (changed changes r) s.runs
              (λ e. apart (e ∙ find_run-same run_id s.runs r found)),
    )
