-- ===== src/Mcp/Tests.antt =====
-- The properties of the MCP server at concrete calls.
use agent_workbench.Base.{
  ◌≡◌, refl, String, Bool, true, false, Option, none, some, [], ◌∷◌, strip, strip_left, strip_right,
  is_blank, is_space, decimal,
}
use agent_workbench.Base.Action.{
  returned, pure, raise, gets, catch, modify, raise_if, when, ◌>>=◌, ◌>>◌,
}
use agent_workbench.Base.Dict.{lookup, insert}
use agent_workbench.Base.Ends.{Met}
use agent_workbench.Base.Json.{Json, null, bool, str, obj, Fields, end, field, get, put}
use agent_workbench.Mcp.Catalog.{
  tool_metadata, category_policy, is_write_category, catalog_get, ticket_create, is_write_tool,
}
use agent_workbench.Mcp.Catalog.Policy.{catalog_get-is_consistent}
use agent_workbench.Mcp.Calls.{McpServer, Call, is_dry_run, key_of}
use agent_workbench.Contracts.Fields.{is_id, is_id_text}
use agent_workbench.Contracts.Invocations.{
  is_tool_name, is_version, is_valid_invocation, stripped_invocation, make_invocation,
}
use agent_workbench.Mcp.Audit.{
  input_hash_of, audit_row, durable_row, persist_audit_record, append_audit, audit,
}
use agent_workbench.Mcp.Context.{check_tenant, require_scope}
use agent_workbench.Mcp.Executor.{
  allow, validated, gate_write, replay, run_handler, remember, perform, replay_or_perform, chosen,
  attempt, report, execute_known, execute_tool,
}
use agent_workbench.Mcp.Executor.DryRun.{ticket_unapproved}
use agent_workbench.Mcp.Executor.Gates.{Gated, execute_tool-Gated}
use agent_workbench.Mcp.Executor.Replay.{calls, execute_tool-once}
use agent_workbench.Mcp.Executor.Trail.{Success, Reported, execute_tool-Reported}
use agent_workbench.Mcp.Handlers.{create_ticket, handlers}
use agent_workbench.Mcp.Inputs.{
  input_models, parse_kind, parse_value, parse_field, parse_fields, only_declared, parse_input,
}
use agent_workbench.Mcp.Libraries.{Libraries}
use agent_workbench.Mcp.Redaction.{
  sensitive_keys, same_codes, is_sensitive, redact_string, redact, redact_fields, sha256_hex,
  output_too_large, redact_for_audit,
}
use agent_workbench.Mcp.Redaction.Keys.{Redacts, redact-Redacts}

catalog_get-is_consistent_example :
    (ticket_create.name ≡ "ticket.create")
    × (category_policy ticket_create ≡ true)
    × (is_write_tool "ticket.create" ≡ is_write_category ticket_create.category)
unfolding catalog_get lookup tool_metadata
catalog_get-is_consistent_example = catalog_get-is_consistent "ticket.create" ticket_create refl

-- Libraries that find nothing to replace, and convert nothing.
abbrev as_bool : Json → Option Bool
as_bool (bool b) = some b
as_bool _ = none

abbrev plain : Libraries
plain = record {
  sub = λ pattern replacement text. text;
  dumps_canonical = λ j. "{}";
  dumps_length = λ j. 100;
  sha256 = λ s. "44136fa3";
  show = λ j. "";
  int_value = λ j. none;
  bool_value = as_bool;
  datetime_value = λ j. none;
  dict_value = λ j. none;
  first_error = λ model raw. "Field required";
}

abbrev ticket_args : Fields
ticket_args = field "title" (str "Checkout down") (field "password" (str "hunter2") end)

-- The password is replaced, the title is scrubbed.
redact-Redacts_example :
    Redacts plain
      (obj ticket_args)
      (obj (field "title" (str "Checkout down") (field "password" (str "[REDACTED]") end)))
unfolding redact redact_fields redact_string is_sensitive same_codes sensitive_keys
redact-Redacts_example = redact-Redacts plain (obj ticket_args)

abbrev call_with : Fields → Option String → Call
call_with args key = record {
  tool_name = "ticket.create";
  raw_args = args;
  auth = record {
    tenant_id = "tenant_a";
    scopes = "tools.write.ticket.create" ∷ [];
    user_id = "alice";
    approved = false;
  };
  idempotency_key = key;
  run_id = some "run_1";
  timeout_override = none;
  around = record {
    invocation_id = "inv_1";
    new_run_id = "run_new";
    now = "2026-09-11T12:00:00+00:00";
    trace_id = none;
    write_works = true;
  };
}

abbrev idle : McpServer
idle = record {
  audit_log = [];
  idempotency_store = [];
  injected_delays = [];
  audit_records = some [];
  executions = [];
}

abbrev no_dry_run : Fields
no_dry_run = field "title" (str "Checkout down") end

abbrev dry : Fields
dry = field "title" (str "Checkout down") (field "dry_run" (bool true) end)

execute_tool-Gated_example :
    Gated plain (call_with dry none) [] [] (execute_tool plain (call_with dry none) idle).1
execute_tool-Gated_example = execute_tool-Gated plain (call_with dry none) idle

execute_tool-Reported_example :
    Met
      (Success plain (call_with ticket_args none) [])
      (Reported plain (call_with ticket_args none) [])
      (execute_tool plain (call_with ticket_args none) idle).0
      (execute_tool plain (call_with ticket_args none) idle).1
unfolding catalog_get lookup tool_metadata
execute_tool-Reported_example =
    execute_tool-Reported plain (call_with ticket_args none) ticket_create idle refl

abbrev ticket : Fields
ticket = field "title" (str "Checkout down") (
    field "severity" (str "medium") (
      field "dry_run" (bool true) (
        field "executed" (bool false) (
          field "ticket_id" null
            (field "ref" (str "ticket://t/1") (field "mode" (str "mock") end))))))

first_call : (execute_tool plain (call_with dry (some "key-1")) idle).0 ≡ returned ticket
unfolding execute_tool execute_known attempt report allow validated gate_write chosen
    replay_or_perform replay run_handler remember perform catalog_get tool_metadata is_write_tool
    check_tenant require_scope handlers create_ticket input_models parse_kind parse_value
    parse_field parse_fields only_declared parse_input sensitive_keys same_codes is_sensitive
    redact_string redact redact_fields sha256_hex output_too_large redact_for_audit input_hash_of
    audit_row durable_row persist_audit_record append_audit audit is_dry_run key_of is_id is_id_text
    is_tool_name is_version is_valid_invocation stripped_invocation make_invocation strip strip_left
    strip_right is_blank is_space decimal lookup insert get put pure raise gets catch modify
    raise_if when ◌>>=◌ ◌>>◌
first_call = refl

execute_tool-once_example :
    let t =
      calls plain
        (call_with no_dry_run none ∷ [])
        (execute_tool plain (call_with dry (some "key-1")) idle).1 in
    ((execute_tool plain (call_with no_dry_run (some "key-1")) t).1.executions ≡ t.executions)
    × ((again : Fields)
        → (execute_tool plain (call_with no_dry_run (some "key-1")) t).0 ≡ returned again
        → again ≡ put "deduplicated" (bool true) ticket)
unfolding is_write_tool key_of
execute_tool-once_example =
    execute_tool-once plain (call_with dry (some "key-1")) (call_with no_dry_run (some "key-1"))
      (call_with no_dry_run none ∷ []) idle ticket refl refl refl first_call

abbrev no_dry_run_parsed : Fields
no_dry_run_parsed = field "tenant_id" null (
    field "title" (str "Checkout down") (
      field "severity" (str "medium") (
        field "description" null (
          field "service" null (field "dry_run" (bool false) (field "idempotency_key" null end))))))

-- Nobody approved the call, and the ticket is created.
ticket_unapproved_example :
    (gate_write (call_with no_dry_run none) idle ≡ (returned tt, idle))
    × ((out : Fields) × (create_ticket plain (put "tenant_id" (str "tenant_a") no_dry_run_parsed)
          ≡ returned out)
        × (get "executed" out ≡ some (bool true)))
unfolding is_dry_run parse_input only_declared parse_fields parse_field parse_value parse_kind strip
    strip_left strip_right is_blank is_space get
ticket_unapproved_example =
    ticket_unapproved plain (call_with no_dry_run none) idle no_dry_run_parsed refl refl refl
