-- ===== src/Security/Authorization/Isolation.antt =====
-- Tenant isolation, and what the scopes decide.
use agent_workbench.Base.{
  String, ◌≡◌, refl, Bool, true, false, not, ◌||◌, Option, some, List, [], ◌∷◌, ◌==◌, string_eq,
  all, keep, is_empty, arith, if◌then◌else◌, ◌↔◌,
}
use agent_workbench.Base.Action.{Result, returned, raised}
use agent_workbench.Security.Authorization.{
  Identity, AuthorizationError, not_found_for_isolation, has, require_scopes, check_tenant_access,
  check_resource_access, in_order,
}

refused_first :
    (own : Bool) (check : Result AuthorizationError (Unit {0}))
    → own ≡ false
    → in_order (if own then returned tt else raised not_found_for_isolation) check
      ≡ raised not_found_for_isolation
refused_first true check h = absurd (cc h)
refused_first false check h = refl

-- A resource of another tenant is answered with the one 404, whatever scopes the caller has or
-- lacks, whoever owns it and whatever is required.
pub check_resource_access-isolated :
    (identity : Identity) (tenant : String) (required : List String) (owner : Option String)
    → (allow : Bool) → (tenant == identity.tenant_id) ≡ false
    → check_resource_access identity (some tenant) required owner allow
      ≡ raised not_found_for_isolation
unfolding check_resource_access check_tenant_access
check_resource_access-isolated identity tenant required owner allow foreign =
    refused_first (tenant == identity.tenant_id) _ foreign

missing-all :
    (scopes required : List String)
    → is_empty (keep (λ s. not (has scopes s)) required) ≡ all (has scopes) required
missing-all scopes [] = refl
missing-all scopes (s ∷ required) = ground (arith, missing-all scopes required)

Decides : Bool → Bool → Bool → AuthorizationError → Type 0
Decides wildcard none_missing all_there e =
    ((if wildcard then returned tt else if none_missing then returned tt else raised e)
      ≡ returned tt)
    ↔ ((wildcard || all_there) ≡ true)

scopes_decide :
    (wildcard none_missing all_there : Bool) (e : AuthorizationError)
    → none_missing ≡ all_there
    → Decides wildcard none_missing all_there e
unfolding Decides
scopes_decide true m a e h = (λ _. refl, λ _. refl)
scopes_decide false true a e h = (λ _. cc h, λ _. refl)
scopes_decide false false a e h = (λ p. absurd (cc p), λ p. absurd (cc (h, p)))

-- The scopes are enough exactly when the caller has the wildcard or every one that is required.
pub require_scopes-returned :
    (identity : Identity) (required : List String)
    → (require_scopes identity required ≡ returned tt)
      ↔ ((has identity.scopes "*" || all (has identity.scopes) required) ≡ true)
unfolding require_scopes Decides
require_scopes-returned identity required =
    scopes_decide (has identity.scopes "*")
      (is_empty (keep (λ s. not (has identity.scopes s)) required))
      (all (has identity.scopes) required) _ (missing-all identity.scopes required)
