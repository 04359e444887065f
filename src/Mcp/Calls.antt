-- ===== src/Mcp/Calls.antt =====
-- A call of execute_tool and what it works on (apps/mcp_server/executor.py and store.py). The
-- server also remembers which handlers were called. Times are in milliseconds.
use agent_workbench.Base.{
  ℕ, String, Bool, true, ◌&&◌, Option, none, some, List, ◌==◌, string_eq, if◌then◌else◌,
}
use agent_workbench.Base.Action.{Action}
use agent_workbench.Base.Dict.{Dict}
use agent_workbench.Base.Json.{Json, null, str, Fields, get, truthy}
use agent_workbench.Contracts.Invocations.{
  ToolInvocation, ToolInvocationStatus, AuthorizationDecision,
}
use agent_workbench.Mcp.Catalog.{is_write_tool}
use agent_workbench.Mcp.Context.{AuthContext}
use agent_workbench.Mcp.Handlers.{McpToolError}

-- An entry of `IDEMPOTENCY_STORE`
pub record Stored : Type 0 where
  pub input_hash : String
  pub result : Fields

-- What `write_audit` is given; its run is None.
pub record AuditRow : Type 0 where
  pub tenant_id : String
  pub actor : String
  pub action : String
  pub decision : Fields
  pub trace_id : Option String

pub record McpServer : Type 0 where
  -- `AUDIT_LOG`, the latest first
  pub audit_log : List ToolInvocation
  pub idempotency_store : Dict Stored
  pub injected_delays : Dict ℕ
  -- the audit repository, where there is one
  pub audit_records : Option (List AuditRow)
  -- the handlers that were called, the latest first
  pub executions : List (String × Fields)

-- What a call takes from its surroundings: fresh ids, the time, the trace, and whether the audit
-- repository takes the row.
pub record Surroundings : Type 0 where
  pub invocation_id : String
  pub new_run_id : String
  pub now : String
  pub trace_id : Option String
  pub write_works : Bool

pub record Timeout : Type 0 where
  pub millis : ℕ
  pub text : String

-- The arguments of `execute_tool`
pub record Call : Type 0 where
  pub tool_name : String
  pub raw_args : Fields
  pub auth : AuthContext
  pub idempotency_key : Option String
  pub run_id : Option String
  pub timeout_override : Option Timeout
  pub around : Surroundings

-- An MCPToolError with the local `status` and `decision` at its raise, a ValidationError of the
-- audit row, or a KeyError.
pub data Stop : Type 0 where
  tool_error : ToolInvocationStatus → AuthorizationDecision → McpToolError → Stop
  validation_error key_error : Stop

abbrev pub Execution : Type 0 → Type 0
Execution A = Action McpServer Stop A

abbrev pub failed : AuthorizationDecision → String → String → Stop
failed decision code message =
    tool_error ToolInvocationStatus.failed decision (record { code = code; message = message })

-- `a or b` of texts that may be missing
abbrev pub text_or : Option String → String → String
text_or none d = d
text_or (some s) d = if s == "" then d else s

-- `key`; null for None
unfoldable pub key_of : Call → Json
key_of c =
    let from_args : Json = elim (get "idempotency_key" c.raw_args) [ none ↦ null | some j ↦ j ] in
    elim c.idempotency_key [ none ↦ from_args | some k ↦ if k == "" then from_args else str k ]

-- `bool(raw_args.get("dry_run", True))`
unfoldable pub is_dry_run : Call → Bool
is_dry_run c = elim (get "dry_run" c.raw_args) [ none ↦ true | some j ↦ truthy j ]

-- Whether the call takes part in the replay of results
abbrev pub is_keyed : Call → Bool
is_keyed c = is_write_tool c.tool_name && truthy (key_of c)
