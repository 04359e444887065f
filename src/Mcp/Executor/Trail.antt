-- ===== src/Mcp/Executor/Trail.antt =====
-- What execute_tool leaves in the audit log.
use agent_workbench.Base.{
  ◌≡◌, ◌≢◌, refl, ap, String, Bool, Option, none, some, List, ◌∷◌, if◌then◌else◌,
}
use agent_workbench.Base.Action.{Result, returned, raised, pure, raise}
use agent_workbench.Base.Ends.{
  Ends, Met, Ends-pure, Ends-raise, Ends-gets, Ends-modify, Ends-raise_if, Ends-when, Ends-bind,
  Ends-then, Ends-catch,
}
use agent_workbench.Base.Json.{Fields}
use agent_workbench.Contracts.Invocations.{
  ToolInvocation, ToolInvocationStatus, AuthorizationDecision, make_invocation,
  make_invocation-Kept,
}
use agent_workbench.Mcp.Catalog.{ToolMetadata, catalog_get, is_write_tool}
use agent_workbench.Mcp.Context.{AuthError}
use agent_workbench.Mcp.Handlers.{McpToolError, Handler}
use agent_workbench.Mcp.Inputs.{InputField}
use agent_workbench.Mcp.Libraries.{Libraries}
use agent_workbench.Mcp.Redaction.{redact_fields}
use agent_workbench.Mcp.Calls.{
  Stored, AuditRow, McpServer, Call, Stop, failed, tool_error, validation_error, key_error,
  Execution, key_of,
}
use agent_workbench.Mcp.Audit.{
  row_key, invocation, audit_row, append_audit, persist_audit_record, audit,
}
use agent_workbench.Mcp.Executor.{
  allow, validated, gate_write, replay, outcome, run_handler, remember, perform, replay_or_perform,
  chosen, attempt, is_denial, report, execute_known, execute_tool,
}

module _ (lib : Libraries) (c : Call) where
  -- A row about this call: what it decided, how it ended, and the arguments without their secrets.
  pub record Tells (status : ToolInvocationStatus) (decision : AuthorizationDecision)
      (row : ToolInvocation) : Type 0 where
    pub status_told : row.status ≡ status
    pub decision_told : row.authorization_decision ≡ decision
    pub input_redacted : row.redacted_input ≡ redact_fields lib c.raw_args

  row-Tells :
      (meta : ToolMetadata) (status : ToolInvocationStatus) (decision : AuthorizationDecision)
      → (hash : Option String) → (e : Option McpToolError) → (row : ToolInvocation)
      → audit_row lib c meta status decision hash e ≡ some row
      → Tells status decision row
  unfolding audit_row
  row-Tells meta status decision hash e row =
      keyed (if is_write_tool c.tool_name then row_key (key_of c) else some none)
    where
      keyed :
          (o : Option (Option String))
          → (elim o as (λ _. Option ToolInvocation) [
            | none ↦ none
            | some key ↦ make_invocation (invocation lib c meta status decision hash e key)
          ])
            ≡ some row
          → Tells status decision row
      keyed none h = absurd (cc h)
      keyed (some key) h =
          let (same, decided, redacted) = make_invocation-Kept _ row h in
          record { status_told = same; decision_told = decided; input_redacted = redacted }

  module _ (log : List ToolInvocation) where
    -- Nothing has been written.
    abbrev pub Unwritten : McpServer → Type 0
    Unwritten s = s.audit_log ≡ log

    -- One row has been written.
    abbrev pub Written : ToolInvocationStatus → AuthorizationDecision → McpServer → Type 0
    Written status decision s =
        (row : ToolInvocation) × (s.audit_log ≡ row ∷ log) × Tells status decision row

    -- What is raised in the `try` is not yet written, and is no success.
    abbrev Pending : Stop → McpServer → Type 0
    Pending (tool_error status decision e) s =
        (s.audit_log ≡ log) × (status ≢ ToolInvocationStatus.succeeded)
    Pending validation_error s = s.audit_log ≡ log
    Pending key_error s = s.audit_log ≡ log

    abbrev pub decided : AuthorizationDecision → McpToolError → AuthorizationDecision
    decided decision e = if is_denial e.code then AuthorizationDecision.denied else decision

    -- What is raised at the end
    abbrev pub Reported : Stop → McpServer → Type 0
    Reported (tool_error status decision e) s =
        Written status (decided decision e) s × (status ≢ ToolInvocationStatus.succeeded)
    Reported validation_error s = s.audit_log ≡ log
    Reported key_error s = s.audit_log ≡ log

    abbrev Succeeds : {A : Type 0} → Execution A → Type 0
    Succeeds m = Ends Unwritten (λ _ _. Unit {0}) Pending m

    persisted :
        {X : Stop → McpServer → Type 0} (works : Bool) (durable : AuditRow)
        → (status : ToolInvocationStatus) → (decision : AuthorizationDecision)
        → Ends
            (Written status decision)
            (λ _. Written status decision)
            X
            (persist_audit_record works durable)
    unfolding persist_audit_record
    persisted works durable status decision =
        Ends-when works _ (Ends-modify {Q = Written status decision} _ (λ s h. h))

    appended :
        {X : Stop → McpServer → Type 0} (works : Bool) (o : Option ToolInvocation)
        (durable : AuditRow)
        → (status : ToolInvocationStatus) → (decision : AuthorizationDecision)
        → ((row : ToolInvocation) → o ≡ some row → Tells status decision row)
        → ((s : McpServer) → s.audit_log ≡ log → X validation_error s)
        → Ends Unwritten (λ _. Written status decision) X (append_audit lib works o durable)
    unfolding append_audit
    appended works none durable status decision tells fails = Ends-raise validation_error fails
    appended works (some row) durable status decision tells fails =
        Ends-then _ _ (Ends-modify _ (λ s h. (row, ap (λ l. row ∷ l) h, tells row refl)))
          (persisted works durable status decision)

    audit-Written :
        {X : Stop → McpServer → Type 0} (meta : ToolMetadata)
        → (status : ToolInvocationStatus) → (decision : AuthorizationDecision)
        → (hash : Option String) → (e : Option McpToolError)
        → ((s : McpServer) → s.audit_log ≡ log → X validation_error s)
        → Ends Unwritten (λ _. Written status decision) X (audit lib c meta status decision hash e)
    unfolding audit
    audit-Written meta status decision hash e =
        appended _ _ _ status decision (row-Tells meta status decision hash e)

    allow-Pending :
        {A : Type 0} (r : Result AuthError A) → Ends Unwritten (λ _. Unwritten) Pending (allow r)
    unfolding allow
    allow-Pending (returned a) = Ends-pure tt (λ s h. h)
    allow-Pending (raised e) = Ends-raise _ (λ s h. (h, λ p. cc p))

    parsed-Pending :
        (o : Option Fields) (message : String) (g : Fields → Fields)
        → Ends Unwritten
            (λ _. Unwritten)
            Pending
            (elim o as (λ _. Execution Fields) [
              | none ↦ raise (failed AuthorizationDecision.allowed "validation_error" message)
              | some p ↦ pure (g p)
            ])
    parsed-Pending none message g = Ends-raise _ (λ s h. (h, λ p. cc p))
    parsed-Pending (some p) message g = Ends-pure _ (λ s h. h)

    validated-Pending :
        (o : Option (List InputField)) → Ends Unwritten (λ _. Unwritten) Pending (validated lib c o)
    unfolding validated
    validated-Pending none = Ends-raise key_error (λ s h. h)
    validated-Pending (some model) = parsed-Pending _ _ _

    gate_write-Pending : Ends Unwritten (λ _. Unwritten) Pending (gate_write c)
    unfolding gate_write
    gate_write-Pending =
        Ends-then _ _ (Ends-raise_if _ _ (λ s h. (h, λ p. cc p)))
          (Ends-raise_if _ _ (λ s h. (h, λ p. cc p)))

    outcome-Pending :
        (r : Result McpToolError Fields) → Ends Unwritten (λ _. Unwritten) Pending (outcome r)
    unfolding outcome
    outcome-Pending (returned out) = Ends-pure out (λ s h. h)
    outcome-Pending (raised e) = Ends-raise _ (λ s h. (h, λ p. cc p))

    run_handler-Pending :
        (meta : ToolMetadata) (o : Option Handler) (args : Fields)
        → Ends Unwritten (λ _. Unwritten) Pending (run_handler c meta o args)
    unfolding run_handler
    run_handler-Pending meta none args = Ends-raise key_error (λ s h. h)
    run_handler-Pending meta (some handler) args = Ends-then _ _ (Ends-modify _ (λ s h. h)) (
        Ends-bind _ _ (Ends-gets _)
          (λ d. Ends-then _ _ (Ends-raise_if _ _ (λ s h. (h, λ p. cc p))) (outcome-Pending _)))

    abbrev pub Success : {A : Type 0} → A → McpServer → Type 0
    Success _ = Written ToolInvocationStatus.succeeded AuthorizationDecision.allowed

    perform-Written :
        (meta : ToolMetadata) (args : Fields)
        → Ends Unwritten Success Pending (perform lib c meta args)
    unfolding perform remember
    perform-Written meta args = Ends-bind _ _ (run_handler-Pending meta _ args) (λ out.
        Ends-then _ _ (Ends-raise_if _ _ (λ s h. (h, λ p. cc p))) (
          Ends-then _ _ (Ends-when _ _ (Ends-modify {Q = Unwritten} _ (λ s h. h)))
            (Ends-then _ _ (audit-Written meta _ _ _ _ (λ s h. h)) (Ends-pure _ (λ s h. h)))))

    replay_or_perform-Written :
        (meta : ToolMetadata) (args : Fields) (o : Option Stored)
        → Ends Unwritten Success Pending (replay_or_perform lib c meta args o)
    unfolding replay_or_perform replay
    replay_or_perform-Written meta args none = perform-Written meta args
    replay_or_perform-Written meta args (some seen) =
        Ends-then _ _ (Ends-raise_if _ _ (λ s h. (h, λ p. cc p)))
          (Ends-then _ _ (audit-Written meta _ _ _ _ (λ s h. h)) (Ends-pure _ (λ s h. h)))

    attempt-Written : (meta : ToolMetadata) → Ends Unwritten Success Pending (attempt lib c meta)
    unfolding attempt chosen
    attempt-Written meta = Ends-then _ _ (allow-Pending _) (
        Ends-then _ _ (allow-Pending _) (
          Ends-bind _ _ (validated-Pending _) (λ args.
            Ends-then _ _ (Ends-when _ _ gate_write-Pending)
              (Ends-bind _ _ (Ends-gets _) (λ o. replay_or_perform-Written meta args o)))))

    report-Reported :
        (meta : ToolMetadata) (e : Stop) → Ends (Pending e) Success Reported (report lib c meta e)
    unfolding report
    report-Reported meta (tool_error status decision e) = record {
      at = λ s h.
          (Ends-then _ _ (audit-Written meta status (decided decision e) _ _ (λ t p. p))
              (Ends-raise _ (λ t w. (w, h.1)))).at
            s h.0;
    }
    report-Reported meta validation_error = Ends-raise _ (λ s h. h)
    report-Reported meta key_error = Ends-raise _ (λ s h. h)

    known-Reported :
        (meta : ToolMetadata) → Ends Unwritten Success Reported (execute_known lib c (some meta))
    unfolding execute_known
    known-Reported meta = Ends-catch _ _ (attempt-Written meta) (report-Reported meta)

-- A call of a tool of the catalog writes one row to the audit log where it returns or raises an
-- MCPToolError. The row has the arguments without their secrets; it says that the call succeeded
-- and was allowed exactly where it returned, and has the status and the decision of the error
-- otherwise, denied for a tenant or scope that was refused. Where the row itself is refused by its
-- contract, or a model or handler is missing, nothing is written.
pub execute_tool-Reported :
    (lib : Libraries) (c : Call) (meta : ToolMetadata) (s : McpServer)
    → catalog_get c.tool_name ≡ some meta
    → Met
        (Success lib c s.audit_log)
        (Reported lib c s.audit_log)
        (execute_tool lib c s).0
        (execute_tool lib c s).1
unfolding execute_tool
execute_tool-Reported lib c meta s known =
    rw known ((known-Reported lib c s.audit_log meta).at s refl)
