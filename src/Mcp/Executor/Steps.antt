-- ===== src/Mcp/Executor/Steps.antt =====
-- The steps of execute_tool that leave the idempotency store as it is.
use agent_workbench.Base.{String, Bool, Option, none, some, List, string_eq}
use agent_workbench.Base.Action.{Result, returned, raised, pure, raise}
use agent_workbench.Base.Dict.{Dict}
use agent_workbench.Base.Ends.{
  Ends, Met, Ends-pure, Ends-raise, Ends-gets, Ends-modify, Ends-raise_if, Ends-when, Ends-bind,
  Ends-then,
}
use agent_workbench.Base.Json.{Fields}
use agent_workbench.Contracts.Invocations.{
  ToolInvocation, ToolInvocationStatus, AuthorizationDecision,
}
use agent_workbench.Mcp.Catalog.{ToolMetadata}
use agent_workbench.Mcp.Context.{AuthError}
use agent_workbench.Mcp.Handlers.{McpToolError, Handler}
use agent_workbench.Mcp.Inputs.{InputField}
use agent_workbench.Mcp.Libraries.{Libraries}
use agent_workbench.Mcp.Calls.{Stored, AuditRow, McpServer, Call, Stop, Execution}
use agent_workbench.Mcp.Audit.{append_audit, persist_audit_record, audit}
use agent_workbench.Mcp.Executor.{
  allow, validated, gate_write, outcome, run_handler, chosen, attempt,
}

-- Steps that leave the store as it is, with what they return or raise of no interest.
module _ (lib : Libraries) (c : Call) (S : Dict Stored → Type 0) (X : Stop → McpServer → Type 0)
    (raises : (e : Stop) (s : McpServer) → S s.idempotency_store → X e s) where
  abbrev pub Store : McpServer → Type 0
  Store s = S s.idempotency_store

  abbrev pub Same : {A : Type 0} → Execution A → Type 0
  Same m = Ends Store (λ _. Store) X m

  appended-Same :
      (works : Bool) (o : Option ToolInvocation) (durable : AuditRow)
      → Same (append_audit lib works o durable)
  unfolding append_audit persist_audit_record
  appended-Same works none durable = Ends-raise _ (raises _)
  appended-Same works (some row) durable =
      Ends-then _ _ (Ends-modify {Q = Store} _ (λ s h. h))
        (Ends-when works _ (Ends-modify {Q = Store} _ (λ s h. h)))

  pub audit-Same :
      (meta : ToolMetadata) (status : ToolInvocationStatus) (decision : AuthorizationDecision)
      → (hash : Option String) → (e : Option McpToolError)
      → Same (audit lib c meta status decision hash e)
  unfolding audit
  audit-Same meta status decision hash e = appended-Same _ _ _

  allow-Same : {A : Type 0} (r : Result AuthError A) → Same (allow r)
  unfolding allow
  allow-Same (returned a) = Ends-pure tt (λ s h. h)
  allow-Same (raised e) = Ends-raise _ (raises _)

  parsed-Same :
      (o : Option Fields) (e : Stop) (g : Fields → Fields)
      → Same (elim o as (λ _. Execution Fields) [ none ↦ raise e | some p ↦ pure (g p) ])
  parsed-Same none e g = Ends-raise _ (raises _)
  parsed-Same (some p) e g = Ends-pure _ (λ s h. h)

  validated-Same : (o : Option (List InputField)) → Same (validated lib c o)
  unfolding validated
  validated-Same none = Ends-raise _ (raises _)
  validated-Same (some model) = parsed-Same _ _ _

  gate_write-Same : Same (gate_write c)
  unfolding gate_write
  gate_write-Same = Ends-then _ _ (Ends-raise_if _ _ (raises _)) (Ends-raise_if _ _ (raises _))

  outcome-Same : (r : Result McpToolError Fields) → Same (outcome r)
  unfolding outcome
  outcome-Same (returned out) = Ends-pure out (λ s h. h)
  outcome-Same (raised e) = Ends-raise _ (raises _)

  pub run_handler-Same :
      (meta : ToolMetadata) (o : Option Handler) (args : Fields) → Same (run_handler c meta o args)
  unfolding run_handler
  run_handler-Same meta none args = Ends-raise _ (raises _)
  run_handler-Same meta (some handler) args = Ends-then _ _ (Ends-modify {Q = Store} _ (λ s h. h)) (
      Ends-bind _ _ (Ends-gets _)
        (λ d. Ends-then _ _ (Ends-raise_if _ _ (raises _)) (outcome-Same _)))

  -- Up to the look into the store
  pub admit-Same :
      {Q : Fields → McpServer → Type 0} (meta : ToolMetadata)
      → ((args : Fields) (s : McpServer)
          → Store s
          → Met Q X (chosen lib c meta args s).0 (chosen lib c meta args s).1)
      → Ends Store Q X (attempt lib c meta)
  unfolding attempt
  admit-Same meta next = Ends-then _ _ (allow-Same _) (
      Ends-then _ _ (allow-Same _) (
        Ends-bind _ _ (validated-Same _)
          (λ args. Ends-then _ _ (Ends-when _ _ gate_write-Same) (record { at = next args }))))
