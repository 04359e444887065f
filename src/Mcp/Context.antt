-- ===== src/Mcp/Context.antt =====
-- AuthContext and its checks (apps/mcp_server/security.py).
use agent_workbench.Base.{
  String, ◌<>◌, Bool, false, not, ◌&&◌, Option, none, some, List, ◌==◌, string_eq, is_empty, keep,
  if◌then◌else◌,
}
use agent_workbench.Base.Action.{Result, returned, raised}
use agent_workbench.Base.Json.{Json, str, truthy}
use agent_workbench.Security.Authorization.{has, joined}

pub record AuthContext : Type 0 where
  pub tenant_id : String
  pub scopes : List String
  pub user_id : String
  pub approved : Bool

-- `AuthError`, and `ForbiddenError` by its code
pub record AuthError : Type 0 where
  pub message : String
  pub code : String

abbrev pub forbidden : String → AuthError
forbidden message = record { message = message; code = "forbidden" }

-- `require_scope`
unfoldable pub require_scope : AuthContext → List String → Result AuthError (Unit {0})
unfolding joined
require_scope auth required =
    let missing = keep (λ s. not (has auth.scopes s)) required in
    if has auth.scopes "*"
    then returned tt
    else if is_empty missing
    then returned tt
    else raised (forbidden ("missing required scope(s): " <> joined missing))

-- A value is the tenant's name.
abbrev names : String → Json → Bool
names tenant (str s) = s == tenant
names tenant _ = false

-- `check_tenant`; an argument that is no text never equals the tenant.
unfoldable pub check_tenant : AuthContext → Option Json → Result AuthError String
check_tenant auth none = returned auth.tenant_id
check_tenant auth (some requested) =
    if truthy requested && not (names auth.tenant_id requested)
    then raised (forbidden "tenant mismatch")
    else returned auth.tenant_id
