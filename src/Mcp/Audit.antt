-- ===== src/Mcp/Audit.antt =====
-- The audit trail of execute_tool: the in-memory row, and the durable one of
-- `_persist_audit_record` (apps/mcp_server/executor.py).
use agent_workbench.Base.{
  String, ◌<>◌, Bool, false, Option, none, some, ◌∷◌, string_eq, if◌then◌else◌,
}
use agent_workbench.Base.Action.{raise, modify, when, ◌>>◌}
use agent_workbench.Base.Json.{Json, null, str, obj, Fields, end, field, optional_text}
use agent_workbench.Contracts.Invocations.{
  ToolInvocation, ToolInvocationStatus, AuthorizationDecision, status_text, authorization_text,
  make_invocation,
}
use agent_workbench.Mcp.Catalog.{ToolMetadata, is_write_tool}
use agent_workbench.Mcp.Handlers.{McpToolError}
use agent_workbench.Mcp.Libraries.{Libraries, text_value}
use agent_workbench.Mcp.Redaction.{redact_fields, redact_for_audit, sha256_hex}
use agent_workbench.Mcp.Calls.{
  AuditRow, Call, Execution, text_or, key_of, is_dry_run, validation_error,
}

-- The audit row's key has to be a text or None.
abbrev pub row_key : Json → Option (Option String)
row_key null = some none
row_key (str k) = some (some k)
row_key _ = none

abbrev pub error_fields : McpToolError → Fields
error_fields e = field "code" (str e.code) (field "message" (str e.message) end)

abbrev pub optional_error : Option McpToolError → Option Fields
optional_error none = none
optional_error (some e) = some (error_fields e)

-- `_persist_audit_record`: a failure of the repository is swallowed.
unfoldable pub persist_audit_record : Bool → AuditRow → Execution (Unit {0})
persist_audit_record works row = when works (
    modify (λ s. record s {
      audit_records = elim s.audit_records [ none ↦ none | some rows ↦ some (row ∷ rows) ];
    }))

module _ (lib : Libraries) where
  -- `f"{tool_name}:{key}"`
  abbrev pub store_key : Call → String
  store_key c = c.tool_name <> ":" <> text_value lib (key_of c)

  unfoldable pub input_hash_of : Call → String
  input_hash_of c = sha256_hex lib (obj (redact_fields lib c.raw_args))

  abbrev error_json : Option McpToolError → Json
  error_json none = null
  error_json (some e) = redact_for_audit lib (obj (error_fields e))

  -- The row that `_audit` writes, before its validation
  abbrev pub invocation :
      Call
      → ToolMetadata
      → ToolInvocationStatus
      → AuthorizationDecision
      → Option String
      → Option McpToolError
      → Option String
      → ToolInvocation
  invocation c meta status decision out_hash error key = record {
    invocation_id = c.around.invocation_id;
    run_id = text_or c.run_id c.around.new_run_id;
    tenant_id = c.auth.tenant_id;
    tool_name = c.tool_name;
    tool_version = meta.version;
    input_hash = input_hash_of c;
    redacted_input = redact_fields lib c.raw_args;
    output_hash = out_hash;
    status = status;
    authorization_decision = decision;
    idempotency_key = key;
    dry_run = if is_write_tool c.tool_name then is_dry_run c else false;
    trace_id = c.around.trace_id;
    error = optional_error error;
  }

  unfoldable pub audit_row :
      Call
      → ToolMetadata
      → ToolInvocationStatus
      → AuthorizationDecision
      → Option String
      → Option McpToolError
      → Option ToolInvocation
  audit_row c meta status decision out_hash error =
      elim (if is_write_tool c.tool_name then row_key (key_of c) else some none) [
        | none ↦ none
        | some key ↦ make_invocation (invocation c meta status decision out_hash error key)
      ]

  -- The row of `_persist_audit_record`
  unfoldable pub durable_row :
      Call
      → ToolInvocationStatus
      → AuthorizationDecision
      → Option String
      → Option McpToolError
      → AuditRow
  durable_row c status decision out_hash error = record {
    tenant_id = c.auth.tenant_id;
    actor = c.auth.user_id;
    action = "mcp.tool." <> c.tool_name;
    decision = field "tool_name" (str c.tool_name) (
        field "run_id" (str (text_or c.run_id c.around.new_run_id)) (
          field "invocation_id" (str c.around.invocation_id) (
            field "authorization_decision" (str (authorization_text decision)) (
              field "status" (str (status_text status)) (
                field "input_hash" (str (input_hash_of c)) (
                  field "output_hash" (optional_text out_hash) (
                    field "redacted_input"
                      (redact_for_audit lib (obj (redact_fields lib c.raw_args)))
                      (field "error" (error_json error) end))))))));
    trace_id = c.around.trace_id;
  }

  unfoldable pub append_audit : Bool → Option ToolInvocation → AuditRow → Execution (Unit {0})
  unfolding persist_audit_record
  append_audit works none durable = raise validation_error
  append_audit works (some row) durable =
      modify (λ s. record s { audit_log = row ∷ s.audit_log }) >> persist_audit_record works durable

  -- `_audit`
  unfoldable pub audit :
      Call
      → ToolMetadata
      → ToolInvocationStatus
      → AuthorizationDecision
      → Option String
      → Option McpToolError
      → Execution (Unit {0})
  unfolding append_audit
  audit c meta status decision out_hash error =
      append_audit c.around.write_works (audit_row c meta status decision out_hash error)
        (durable_row c status decision out_hash error)
