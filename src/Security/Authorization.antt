-- ===== src/Security/Authorization.antt =====
-- packages/security/authz.py: scopes and tenant isolation.
pub mod Isolation
use agent_workbench.Base.{
  ℕ, String, ◌<>◌, Bool, true, false, not, ◌&&◌, ◌||◌, Option, none, some, List, [], ◌∷◌, ◌==◌,
  string_eq, any, all, keep, is_empty, codes, has_prefix, if◌then◌else◌,
}
use agent_workbench.Base.Action.{Result, returned, raised}

-- The fields of Identity that the checks read.
pub record Identity : Type 0 where
  pub tenant_id : String
  pub user_id : String
  pub scopes : List String

pub record AuthorizationError : Type 0 where
  pub message : String
  pub status : ℕ
  pub code : String

-- `NotFoundForIsolation()`
abbrev pub not_found_for_isolation : AuthorizationError
not_found_for_isolation = record { message = "not found"; status = 404; code = "not_found" }

abbrev pub has : List String → String → Bool
has scopes s = any (λ t. t == s) scopes

-- `",".join(…)`
unfoldable pub joined : List String → String
joined [] = ""
joined (s ∷ []) = s
joined (s ∷ t ∷ ts) = s <> "," <> joined (t ∷ ts)

-- `require_scopes`
unfoldable pub require_scopes : Identity → List String → Result AuthorizationError (Unit {0})
unfolding joined
require_scopes identity required =
    let missing = keep (λ s. not (has identity.scopes s)) required in
    if has identity.scopes "*"
    then returned tt
    else if is_empty missing
    then returned tt
    else raised (record {
      message = "missing required scope(s): " <> joined missing;
      status = 403;
      code = "forbidden";
    })

-- `check_tenant_access`
unfoldable pub check_tenant_access : Identity → Option String → Result AuthorizationError (Unit {0})
check_tenant_access identity none = returned tt
check_tenant_access identity (some tenant) =
    if tenant == identity.tenant_id then returned tt else raised not_found_for_isolation

-- The owner's own reads need no scope.
abbrev pub is_owner : Identity → Option String → Bool
is_owner identity none = false
is_owner identity (some user) = user == identity.user_id

abbrev pub is_read_scope : String → Bool
is_read_scope s = s == "case.read" || s == "tools.read"

-- One check, and then another.
abbrev pub in_order :
    Result AuthorizationError (Unit {0})
    → Result AuthorizationError (Unit {0})
    → Result AuthorizationError (Unit {0})
in_order (raised e) check = raised e
in_order (returned _) check = check

-- `check_resource_access`
unfoldable pub check_resource_access :
    Identity
    → Option String
    → List String
    → Option String
    → Bool
    → Result AuthorizationError (Unit {0})
check_resource_access identity tenant required owner allow_owner_read =
    in_order (check_tenant_access identity tenant) (
      if is_empty required
      then returned tt
      else if allow_owner_read && is_owner identity owner && all is_read_scope required
      then returned tt
      else require_scopes identity required)
