-- ===== src/Api/Requests.antt =====
-- What the endpoints of apps/api/routes share: a request with its surroundings, the errors, and a method
-- of the repository within an endpoint.
use agent_workbench.Base.{ℕ, String, false, Option, none, some, string_eq}
use agent_workbench.Base.Action.{Action, Result, returned, raised, pure, raise}
use agent_workbench.Base.Json.{Fields}
use agent_workbench.Contracts.Events.{AgentEvent, EventType}
use agent_workbench.Orchestrator.Clients.{Clients}
use agent_workbench.Persistence.Database.{RepositoryError, not_found, conflict, Repository}
use agent_workbench.Security.Authorization.{Identity, AuthorizationError}
use agent_workbench.Api.Store.{Gateway, RepositoryStore}

-- HTTPException with its envelope, the authorization's error, or an exception that escapes.
pub data ApiError : Type 0 where
  http : ℕ → String → String → ApiError
  unauthorized : AuthorizationError → ApiError
  escaped : RepositoryError → ApiError

pub record DecideRequest : Type 0 where
  pub decision : String
  pub approver : String
  pub reason : Option String
  pub schema_version : String

-- The clock and the new event ids of a request.
pub record Surroundings : Type 0 where
  pub now : ℕ
  pub received_id : String
  pub completed_id : String

pub record DecideCall : Type 0 where
  pub run_id : String
  pub approval_id : String
  pub body : DecideRequest
  pub identity : Identity
  pub idempotency_key : Option String
  pub around : Surroundings

abbrev pub Endpoint : Type 0 → Type 0 → Type 0
Endpoint World A = Action (Gateway World) ApiError A

abbrev pub key_text : Option String → String
key_text none = ""
key_text (some k) = k

abbrev pub event : String → String → String → EventType → Fields → AgentEvent
event id run_id tenant type payload = record {
  event_id = id;
  run_id = run_id;
  tenant_id = tenant;
  sequence = 0;
  type = type;
  payload = payload;
  trace_id = none;
  correlation_id = none;
  sensitive = false;
  safe_for_ui = false;
}

-- `except NotFoundError`, and `except ConflictError`
abbrev pub missing_only : RepositoryError → ApiError
missing_only (not_found message) = http 404 "not_found" "not found"
missing_only e = escaped e

-- `RepositoryStore(repo, run_id, tenant_id)`
abbrev pub store_of : DecideCall → RepositoryStore
store_of d = record { run_id = d.run_id; tenant_id = d.identity.tenant_id; now = d.around.now }

abbrev pub without_conflict : RepositoryError → Result RepositoryError (Unit {0})
without_conflict (not_found message) = returned tt
without_conflict (conflict message) = returned tt
without_conflict e = raised e

abbrev pub kept_result : {A : Type 0} → Result RepositoryError A → Result RepositoryError (Unit {0})
kept_result (returned a) = returned tt
kept_result (raised e) = without_conflict e

-- `with contextlib.suppress(NotFoundError, ConflictError)`
unfoldable pub suppressed : {A : Type 0} → Repository A → Repository (Unit {0})
suppressed m db = let (r, after) = m db in (kept_result r, after)

module _ (c : Clients) where
  -- A method of the repository, with what its exception becomes
  unfoldable pub in_repository :
      {A : Type 0} → Repository A → (RepositoryError → ApiError) → Endpoint c.World A
  in_repository m convert g =
      let (r, d) = m g.db in
      let h : Gateway c.World = record g { db = d } in
      elim r [ returned a ↦ (returned a, h) | raised e ↦ (raised (convert e), h) ]

  unfoldable pub authorized : Result AuthorizationError (Unit {0}) → Endpoint c.World (Unit {0})
  authorized (returned u) = pure tt
  authorized (raised e) = raise (unauthorized e)
