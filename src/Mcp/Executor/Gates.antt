-- ===== src/Mcp/Executor/Gates.antt =====
-- What has passed before a handler is called.
use agent_workbench.Base.{
  ◌≡◌, refl, ap, sym, if◌then◌else◌, String, Bool, true, false, not, ◌&&◌, Option, none, some, List,
  ◌∷◌, ◌⊎◌, inl, inr,
}
use agent_workbench.Base.Action.{Result, returned, raised, modify, ◌>>=◌}
use agent_workbench.Base.Dict.{Dict, lookup}
use agent_workbench.Base.Json.{Json, str, Fields, get, put, truthy}
use agent_workbench.Base.Keeps.{
  Leads, Keeps, Keeps-pure, Keeps-raise, Keeps-gets, Keeps-modify, Keeps-raise_if, Keeps-when,
  Keeps-bind, Keeps-then, Leads-bind, Leads-then, Leads-catch, Keeps-weaken,
}
use agent_workbench.Contracts.Invocations.{
  ToolInvocation, ToolInvocationStatus, AuthorizationDecision,
}
use agent_workbench.Mcp.Catalog.{ToolMetadata, catalog_get, is_write_tool}
use agent_workbench.Mcp.Context.{AuthContext, AuthError, forbidden, check_tenant, require_scope}
use agent_workbench.Mcp.Handlers.{McpToolError, Handler}
use agent_workbench.Mcp.Inputs.{InputField, input_models, parse_input}
use agent_workbench.Mcp.Libraries.{Libraries}
use agent_workbench.Mcp.Executor.Rules.{
  Leads-allow, Leads-parsed, Leads-gates, Leads-gets, Leads-raised,
}
use agent_workbench.Mcp.Calls.{
  Stored, AuditRow, McpServer, Call, Stop, tool_error, validation_error, key_error, Execution,
  key_of, is_dry_run, is_keyed,
}
use agent_workbench.Mcp.Audit.{store_key, append_audit, persist_audit_record, audit}
use agent_workbench.Mcp.Executor.{
  validated, gate_write, replay, outcome, run_handler, remember, perform, replay_or_perform, chosen,
  attempt, report, execute_known, execute_tool,
}

-- What a call of a handler has passed, with the arguments that the handler gets.
pub record Admitted (lib : Libraries) (c : Call) (store : Dict Stored) (args : Fields)
    : Type 0 where
  pub meta : ToolMetadata
  pub known : catalog_get c.tool_name ≡ some meta
  pub same_tenant : check_tenant c.auth (get "tenant_id" c.raw_args) ≡ returned c.auth.tenant_id
  pub scoped : require_scope c.auth meta.required_scopes ≡ returned tt
  pub model : List InputField
  pub declared : lookup c.tool_name input_models ≡ some model
  pub parsed : Fields
  pub valid : parse_input lib model c.raw_args ≡ some parsed
  pub of_tenant : args ≡ put "tenant_id" (str c.auth.tenant_id) parsed
  pub approved :
      is_write_tool c.tool_name ≡ true → not (is_dry_run c) && not c.auth.approved ≡ false
  pub keyed :
      is_write_tool c.tool_name ≡ true → not (is_dry_run c) && not (truthy (key_of c)) ≡ false
  pub fresh : is_keyed c ≡ true → lookup (store_key lib c) store ≡ none

check_tenant-returned :
    (auth : AuthContext) (o : Option Json) (t : String)
    → check_tenant auth o ≡ returned t
    → check_tenant auth o ≡ returned auth.tenant_id
unfolding check_tenant
check_tenant-returned auth none t h = refl
check_tenant-returned auth (some j) t h = passed _ h
  where
    tenant_if : Bool → Result AuthError String
    tenant_if b = if b then raised (forbidden "tenant mismatch") else returned auth.tenant_id

    passed : (b : Bool) → tenant_if b ≡ returned t → tenant_if b ≡ returned auth.tenant_id
    passed true h = absurd (cc h)
    passed false h = refl

module _ (lib : Libraries) (c : Call) (log : List (String × Fields)) (store : Dict Stored) where
  -- No handler has been called.
  abbrev pub Quiet : McpServer → Type 0
  Quiet s = (s.executions ≡ log) × (s.idempotency_store ≡ store)

  -- At most one handler has been called, and everything had passed.
  abbrev pub Gated : McpServer → Type 0
  Gated s =
      (s.executions ≡ log)
      ⊎ ((args : Fields) × (s.executions ≡ (c.tool_name, args) ∷ log) × Admitted lib c store args)

  weaker : (s : McpServer) → Quiet s → Gated s
  weaker s h = inl h.0

  audited :
      (works : Bool) (row : Option ToolInvocation) (durable : AuditRow)
      → Keeps Gated (append_audit lib works row durable)
  unfolding append_audit persist_audit_record
  audited works none durable = Keeps-raise validation_error
  audited works (some row) durable =
      Keeps-then _ _ (Keeps-modify _ (λ s h. h)) (Keeps-when works _ (Keeps-modify _ (λ s h. h)))

  audit-Gated :
      (meta : ToolMetadata) (status : ToolInvocationStatus) (decision : AuthorizationDecision)
      → (hash : Option String) → (e : Option McpToolError)
      → Keeps Gated (audit lib c meta status decision hash e)
  unfolding audit
  audit-Gated meta status decision hash e = audited _ _ _

  replay-Gated : (meta : ToolMetadata) (seen : Stored) → Keeps Gated (replay lib c meta seen)
  unfolding replay
  replay-Gated meta seen =
      Keeps-then _ _ (Keeps-raise_if _ _) (Keeps-then _ _ (audit-Gated meta _ _ _ _) (Keeps-pure _))

  outcome-Gated : (r : Result McpToolError Fields) → Keeps Gated (outcome r)
  unfolding outcome
  outcome-Gated (returned out) = Keeps-pure out
  outcome-Gated (raised e) = Keeps-raise _

  run_handler-Gated :
      (meta : ToolMetadata) (h : Option Handler) (args : Fields)
      → Admitted lib c store args
      → Leads Quiet Gated (run_handler c meta h args)
  unfolding run_handler
  run_handler-Gated meta none args ok = Keeps-weaken _ weaker (Keeps-raise key_error)
  run_handler-Gated meta (some handler) args ok =
      Leads-then _ _ (λ s h. h)
        (record {
          at = λ s h. unfold modify in inr (args, ap (λ l. (c.tool_name, args) ∷ l) h.0, ok);
        })
        (Keeps-bind _ _ (Keeps-gets _)
          (λ d. Keeps-then _ _ (Keeps-raise_if _ _) (outcome-Gated (handler args))))

  perform-Gated :
      (meta : ToolMetadata) (args : Fields)
      → Admitted lib c store args
      → Leads Quiet Gated (perform lib c meta args)
  unfolding perform remember
  perform-Gated meta args ok =
      Leads-bind _ _ (λ s h. h) (run_handler-Gated meta _ args ok)
        (λ out. Keeps-then _ _ (Keeps-raise_if _ _) (
          Keeps-then _ _ (Keeps-when _ _ (Keeps-modify _ (λ s h. h)))
            (Keeps-then _ _ (audit-Gated meta _ _ _ _) (Keeps-pure _))))

  remembered :
      (b : Bool) (d : Dict Stored)
      → d ≡ store
      → b ≡ true
      → lookup (store_key lib c) store ≡ (if b then lookup (store_key lib c) d else none)
  remembered true d h p = sym (ap (lookup (store_key lib c)) h)
  remembered false d h p = absurd (cc p)

  choice-Gated :
      (meta : ToolMetadata) (args : Fields) (o : Option Stored)
      → ((is_keyed c ≡ true → lookup (store_key lib c) store ≡ none) → Admitted lib c store args)
      → (is_keyed c ≡ true → lookup (store_key lib c) store ≡ o)
      → Leads Quiet Gated (replay_or_perform lib c meta args o)
  unfolding replay_or_perform
  choice-Gated meta args none ok found = perform-Gated meta args (ok found)
  choice-Gated meta args (some seen) ok found = Keeps-weaken _ weaker (replay-Gated meta seen)

  validated-Gated :
      (o : Option (List InputField)) (f : Fields → Execution Fields)
      → ((model : List InputField) (parsed : Fields)
          → o ≡ some model
          → parse_input lib model c.raw_args ≡ some parsed
          → Leads Quiet Gated (f (put "tenant_id" (str c.auth.tenant_id) parsed)))
      → Leads Quiet Gated (validated lib c o >>= f)
  unfolding validated
  validated-Gated none f next = Leads-raised weaker key_error f
  validated-Gated (some model) f next =
      Leads-parsed weaker (parse_input lib model c.raw_args) _ _ f (λ p e. next model p refl e)

  attempt-Gated :
      (meta : ToolMetadata)
      → catalog_get c.tool_name ≡ some meta
      → Leads Quiet Gated (attempt lib c meta)
  unfolding attempt chosen gate_write
  attempt-Gated meta known = Leads-allow weaker _ _ λ t same. Leads-allow weaker _ _ λ u scoped.
      validated-Gated _ _ λ model parsed declared valid.
        Leads-gates weaker (is_write_tool c.tool_name) _ _ _ _ _ λ approved keyed.
          Leads-gets _ _ λ s h.
            (choice-Gated meta _ _
                (λ fresh. record {
                  meta = meta;
                  known = known;
                  same_tenant = check_tenant-returned c.auth (get "tenant_id" c.raw_args) t same;
                  scoped = scoped;
                  model = model;
                  declared = declared;
                  parsed = parsed;
                  valid = valid;
                  of_tenant = refl;
                  approved = approved;
                  keyed = keyed;
                  fresh = fresh;
                })
                (remembered (is_keyed c) s.idempotency_store h.1)).at
              s h

  report-Gated : (meta : ToolMetadata) (e : Stop) → Keeps Gated (report lib c meta e)
  unfolding report
  report-Gated meta (tool_error status decision e) =
      Keeps-then _ _ (audit-Gated meta _ _ _ _) (Keeps-raise _)
  report-Gated meta validation_error = Keeps-raise _
  report-Gated meta key_error = Keeps-raise _

  known-Gated :
      (o : Option ToolMetadata)
      → catalog_get c.tool_name ≡ o
      → Leads Quiet Gated (execute_known lib c o)
  unfolding execute_known
  known-Gated none e = Keeps-weaken _ weaker (Keeps-raise _)
  known-Gated (some meta) e = Leads-catch _ _ (attempt-Gated meta e) (report-Gated meta)

-- A call of execute_tool calls at most one handler. Where it calls one, the tool is in the catalog,
-- the caller's tenant and scopes were accepted, the arguments are the validated ones with the
-- caller's tenant, a write was a dry run by its raw arguments or both approved and keyed, and the
-- key of a write had no stored result.
pub execute_tool-Gated :
    (lib : Libraries) (c : Call) (s : McpServer)
    → Gated lib c s.executions s.idempotency_store (execute_tool lib c s).1
unfolding execute_tool
execute_tool-Gated lib c s =
    (known-Gated lib c s.executions s.idempotency_store (catalog_get c.tool_name) refl).at s
      (refl, refl)
