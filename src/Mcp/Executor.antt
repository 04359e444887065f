-- ===== src/Mcp/Executor.antt =====
-- execute_tool of apps/mcp_server/executor.py. Spans, logs and the details of errors are left out.
pub mod Rules
pub mod Gates
pub mod Trail
pub mod Steps
pub mod Kept
pub mod Replay
pub mod DryRun
use agent_workbench.Base.{
  ℕ, ◌*◌, String, ◌<>◌, Bool, true, false, not, ◌&&◌, ◌||◌, Option, none, some, List, [], ◌∷◌, ◌==◌,
  string_eq, leb, decimal, if◌then◌else◌,
}
use agent_workbench.Base.Action.{
  Action, Result, returned, raised, pure, raise, gets, catch, modify, raise_if, when, ◌>>=◌, ◌>>◌,
}
use agent_workbench.Base.Dict.{Dict, lookup, insert}
use agent_workbench.Base.Json.{
  Json, null, bool, str, obj, Fields, end, field, get, put, truthy, optional_text,
}
use agent_workbench.Contracts.Invocations.{
  ToolInvocation, ToolInvocationStatus, AuthorizationDecision, status_text, authorization_text,
  make_invocation,
}
use agent_workbench.Mcp.Catalog.{ToolMetadata, catalog_get, is_write_tool}
use agent_workbench.Mcp.Context.{AuthContext, AuthError, check_tenant, require_scope}
use agent_workbench.Mcp.Handlers.{McpToolError, Handler, handlers}
use agent_workbench.Mcp.Inputs.{InputField, input_models, parse_input}
use agent_workbench.Mcp.Libraries.{Libraries, text_value}
use agent_workbench.Mcp.Redaction.{
  redact, redact_fields, redact_for_audit, sha256_hex, output_too_large,
}
use agent_workbench.Mcp.Calls.{
  Stored, AuditRow, McpServer, Surroundings, Timeout, Call, Stop, Execution, failed, text_or,
  key_of, is_dry_run, is_keyed, tool_error, validation_error, key_error,
}
use agent_workbench.Mcp.Audit.{
  persist_audit_record, store_key, input_hash_of, audit_row, durable_row, append_audit, audit,
}

-- `except ForbiddenError`
unfoldable pub allow : {A : Type 0} → Result AuthError A → Execution (Unit {0})
allow (returned a) = pure tt
allow (raised e) = raise (failed AuthorizationDecision.denied "forbidden" e.message)

-- The gates of a write
unfoldable pub gate_write : Call → Execution (Unit {0})
gate_write c = do
  raise_if (not (is_dry_run c) && not c.auth.approved) (
      failed AuthorizationDecision.requires_approval "approval_required"
        (c.tool_name <> " requires human approval (dry_run=false)"))
  raise_if (not (is_dry_run c) && not (truthy (key_of c))) (
      failed AuthorizationDecision.allowed "validation_error"
        "idempotency_key required when dry_run=false")

abbrev pub deduplicated : Stored → Fields
deduplicated seen = put "deduplicated" (bool true) seen.result

abbrev timeout_of : Call → ToolMetadata → Timeout
timeout_of c meta = elim c.timeout_override [
  | none ↦ record { millis = 1000 * meta.timeout_seconds; text = decimal meta.timeout_seconds }
  | some t ↦ t
]

abbrev delay_of : String → McpServer → ℕ
delay_of tool s = elim (lookup tool s.injected_delays) [ none ↦ 0 | some d ↦ d ]

outcome : Result McpToolError Fields → Execution Fields
outcome (returned out) = pure out
outcome (raised e) = raise (tool_error ToolInvocationStatus.failed AuthorizationDecision.allowed e)

-- `wait_for(HANDLERS[tool_name](args), timeout)`
unfoldable pub run_handler : Call → ToolMetadata → Option Handler → Fields → Execution Fields
unfolding outcome
run_handler c meta none args = raise key_error
run_handler c meta (some handler) args = do
  modify (λ s. record s { executions = (c.tool_name, args) ∷ s.executions })
  delay ← gets (delay_of c.tool_name)
  raise_if (leb (timeout_of c meta).millis delay) (
      tool_error ToolInvocationStatus.timeout AuthorizationDecision.allowed (record {
        code = "timeout";
        message = c.tool_name <> " timed out after " <> (timeout_of c meta).text <> "s";
      }))
  outcome (handler args)

abbrev add_absent : String → Stored → Dict Stored → Dict Stored
add_absent k v d = elim (lookup k d) [ none ↦ insert k v d | some _ ↦ d ]

abbrev pub is_denial : String → Bool
is_denial code = code == "forbidden" || code == "auth_error"

module _ (lib : Libraries) where
  unfoldable pub validated : Call → Option (List InputField) → Execution Fields
  validated c none = raise key_error
  validated c (some model) = elim (parse_input lib model c.raw_args) [
    | none ↦ raise (
        failed AuthorizationDecision.allowed "validation_error"
          ("invalid input: " <> lib.first_error c.tool_name c.raw_args))
    | some parsed ↦ pure (put "tenant_id" (str c.auth.tenant_id) parsed)
  ]

  -- The stored result of an earlier call
  unfoldable pub replay : Call → ToolMetadata → Stored → Execution Fields
  replay c meta seen = do
    raise_if (not (seen.input_hash == input_hash_of lib c)) (
        failed AuthorizationDecision.allowed "conflict"
          "idempotency key already used with different input")
    audit lib c meta ToolInvocationStatus.succeeded AuthorizationDecision.allowed
        (some (sha256_hex lib (redact lib (obj (deduplicated seen))))) none
    pure (deduplicated seen)

  -- The key remembers the result.
  unfoldable pub remember : Call → Fields → Execution (Unit {0})
  remember c result = when (is_keyed c) (
      modify (λ s. record s {
        idempotency_store =
            add_absent (store_key lib c)
              (record { input_hash = input_hash_of lib c; result = result }) s.idempotency_store;
      }))

  -- From the call of the handler to the result
  unfoldable pub perform : Call → ToolMetadata → Fields → Execution Fields
  perform c meta args = do
    out ← run_handler c meta (lookup c.tool_name (handlers lib c.around.now)) args
    raise_if (output_too_large lib (obj out) 65536)
        (failed AuthorizationDecision.allowed "tool_error" "tool result oversize; rejected")
    remember c (redact_fields lib out)
    audit lib c meta ToolInvocationStatus.succeeded AuthorizationDecision.allowed
        (some (sha256_hex lib (obj (redact_fields lib out)))) none
    pure (redact_fields lib out)

  unfoldable pub replay_or_perform : Call → ToolMetadata → Fields → Option Stored → Execution Fields
  replay_or_perform c meta args none = perform c meta args
  replay_or_perform c meta args (some seen) = replay c meta seen

  -- The look into the store, and what follows from it
  unfoldable pub chosen : Call → ToolMetadata → Fields → Execution Fields
  chosen c meta args = do
    seen ← gets (λ s. if is_keyed c then lookup (store_key lib c) s.idempotency_store else none)
    replay_or_perform c meta args seen

  -- The body of the `try`
  unfoldable pub attempt : Call → ToolMetadata → Execution Fields
  attempt c meta = do
    allow (check_tenant c.auth (get "tenant_id" c.raw_args))
    allow (require_scope c.auth meta.required_scopes)
    args ← validated c (lookup c.tool_name input_models)
    when (is_write_tool c.tool_name) (gate_write c)
    chosen c meta args

  -- `except MCPToolError`
  unfoldable pub report : Call → ToolMetadata → Stop → Execution Fields
  report c meta (tool_error status decision e) =
      audit lib c meta status (if is_denial e.code then AuthorizationDecision.denied else decision)
        none (some e)
      >> raise (tool_error status decision e)
  report c meta validation_error = raise validation_error
  report c meta key_error = raise key_error

  unfoldable pub execute_known : Call → Option ToolMetadata → Execution Fields
  execute_known c none =
      raise (failed AuthorizationDecision.allowed "not_found" ("unknown tool " <> c.tool_name))
  execute_known c (some meta) = catch (attempt c meta) (report c meta)

  -- `execute_tool`
  unfoldable pub execute_tool : Call → Execution Fields
  execute_tool c = execute_known c (catalog_get c.tool_name)
