-- ===== src/Orchestrator/Graph/Calls.antt =====
-- The calls of the graph to the MCP server and to the specialist (graph.py: `_mcp_read` and
-- `_delegate`). The request's deadline and the measured latencies are left out.
use agent_workbench.Base.{
  ℕ, zero, suc, String, ◌<>◌, Bool, true, false, Option, none, some, List, [], ◌∷◌, ◌==◌, string_eq,
  codes, is_infix, if◌then◌else◌, ◌++◌,
}
use agent_workbench.Base.Action.{
  Result, returned, raised, pure, raise, modify, gets, raise_if, when, ◌>>=◌, ◌>>◌,
}
use agent_workbench.Base.Json.{Json, str, arr, obj, items, Fields, end, field, get, optional_text}
use agent_workbench.Base.Python.{text_of, get_text}
use agent_workbench.Contracts.Events.{tool_started, tool_completed, agent_delegated}
use agent_workbench.Mcp.Catalog.{catalog_get, is_read_category}
use agent_workbench.Orchestrator.Breaker.{is_open, record_success, record_failure}
use agent_workbench.Orchestrator.Clients.{
  Exn, run_cancelled, budget_exceeded, timeout, failure, Clients,
}
use agent_workbench.Orchestrator.Graph.Core.{
  Graph, update, effect, get_run, external, from_result, emit, check_cancel, spend_tool,
  spend_delegation, invoked, delegated,
}
use agent_workbench.Orchestrator.Registry.{validate_tool_call}
use agent_workbench.Orchestrator.State.{RunState}
use agent_workbench.Orchestrator.Utilities.{
  redact_args, safe_error, reject_malformed, valid_a2a_output, deploy_state_text,
}

-- `mcp_timeout_for`: the catalog's timeout, or the largest of them.
unfoldable pub mcp_timeout_for : String → ℕ
mcp_timeout_for tool_name = elim (catalog_get tool_name) [ none ↦ 60 | some m ↦ m.timeout_seconds ]

abbrev pub max_read_retries : ℕ
max_read_retries = 2

-- What the `except` clauses of the retry loop do with an exception.
pub data Verdict : Type 0 where
  again give_up reraise : Verdict

abbrev pub verdict : Exn → Verdict
verdict run_cancelled = reraise
verdict (budget_exceeded _) = reraise
verdict (timeout _ _) = again
verdict (failure _ _) = give_up

-- The evidence whose reference mentions a kind of telemetry.
refs_of : (Json → String) → String → List Fields → List Json
refs_of text kind [] = []
refs_of text kind (e ∷ es) =
    let rest = refs_of text kind es in
    let ref : Json = elim (get "ref" e) [ none ↦ str "" | some r ↦ r ] in
    if is_infix (codes kind) (codes (text ref)) then ref ∷ rest else rest

or_default : List Json → Json → List Json
or_default [] d = d ∷ []
or_default (x ∷ xs) d = x ∷ xs

-- `CircuitBreaker.guard`
unfoldable pub guard_circuit : (c : Clients) → String → Graph c (Unit {0})
guard_circuit c key = do
  circuit_open ← gets (λ m. is_open m.breaker key)
  raise_if circuit_open (failure "CircuitOpenError" ("circuit open for " <> key))

module _ (c : Clients) where
  -- What an attempt's result leads to: an end of the loop, or a retry.
  unfoldable pub settle :
      Result Exn Fields → Graph c (Result Exn Fields) → Graph c (Result Exn Fields)
  settle (returned out) retry = pure (returned out)
  settle (raised e) retry = elim (verdict e) [
    | again ↦ retry
    | give_up ↦ pure (raised e)
    | reraise ↦ raise e
  ]

  module _ (tool_name : String) (args : Fields) where
    -- `deps.mcp.invoke`, then `_reject_malformed`
    unfoldable pub invoke_checked : Graph c Fields
    invoke_checked = do
      effect c (invoked tool_name args (mcp_timeout_for tool_name))
      out ← external c (c.invoke tool_name args (mcp_timeout_for tool_name))
      from_result c (reject_malformed c.python out)

    -- The body of the `try` in `_mcp_read`.
    unfoldable pub read_once : Graph c Fields
    read_once = do
      check_cancel c
      spend_tool c
      out ← invoke_checked
      modify (λ m. record m { breaker = record_success m.breaker "mcp" })
      emit c tool_completed
          (field "tool_name" (str tool_name) (field "status" (str "succeeded") end))
      pure out

    -- The retry loop, with the retries left: the output, or the last exception.
    unfoldable pub read_attempts : ℕ → Graph c (Result Exn Fields)
    unfolding settle
    read_attempts zero m = let (r, m') = read_once m in settle r (pure r) m'
    read_attempts (suc left) m = let (r, m') = read_once m in settle r (read_attempts left) m'

    unfoldable pub degrade : Result Exn Fields → Graph c (Option Fields)
    degrade (returned out) = pure (some out)
    degrade (raised e) = do
      modify (λ m. record m { breaker = record_failure m.breaker "mcp" })
      emit c tool_completed (
          field "tool_name" (str tool_name)
            (field "status" (str "failed") (field "error" (str (safe_error e)) end)))
      pure none

    -- `_mcp_read`
    unfoldable pub mcp_read : Graph c (Option Fields)
    unfolding degrade
    mcp_read = do
      spec ← from_result c (validate_tool_call c.python tool_name args)
      raise_if (if is_read_category spec.category then false else true)
          (failure "AssertionError" "not a read tool")
      guard_circuit c "mcp"
      emit c tool_started
          (field "tool_name" (str tool_name) (field "args" (obj (redact_args args)) end))
      result ← read_attempts max_read_retries
      degrade result

  -- The request of `_delegate`.
  unfoldable pub a2a_request : RunState → Fields
  unfolding refs_of or_default
  a2a_request r =
      let service = get_text c.python r.context "service" "checkout-api" in
      let text = text_of c.python in
      let metrics =
        or_default (refs_of text "telemetry://m" r.mcp_evidence)
          (str ("telemetry://m/" <> service <> "/err")) in
      let logs = refs_of text "telemetry://l" r.mcp_evidence in
      field "schema_version" (str "1.0") (
        field "task_id" (str (r.run_id <> "-obs-1")) (
          field "run_id" (str r.run_id) (
            field "tenant_id" (str r.tenant_id) (
              field "skill_id" (str "correlate-service-symptoms") (
                field "agent_name" (str "observability-agent") (
                  field "objective" (str ("Correlate symptoms for " <> service)) (
                    field "inputs"
                      (obj (
                        field "service" (str service) (
                          field "window"
                            (obj (
                              field "start" (str "2026-09-11T11:00:00Z")
                                (field "end" (str "2026-09-11T12:00:00Z") end)))
                            (field "metrics_refs" (arr (items metrics)) (
                              field "logs_refs" (arr (items logs)) (
                                field "deploy_state"
                                  (optional_text (deploy_state_text c.python r.mcp_evidence))
                                  end))))))
                      (field "requester" (str "orchestrator") (
                        field "trace_id" (optional_text r.trace_id)
                          (field "correlation_id" (optional_text r.correlation_id) end))))))))))

  -- A degraded delegation: the fallback flag and a note for the reader.
  unfoldable pub fall_back : Bool → String → Graph c (Option Fields)
  fall_back count note = do
    when count (modify (λ m. record m { breaker = record_failure m.breaker "a2a" }))
    update c (λ r. record r { a2a_fallback = true; unresolved = r.unresolved ++ note ∷ [] })
    pure none

  -- `result.get("error", {}).get("message", "unknown")`, which raises where the error is no dict.
  unfoldable pub error_message : Fields → Result Exn String
  error_message result = elim (get "error" result) [
    | none ↦ returned "unknown"
    | some (obj e) ↦ returned (get_text c.python e "message" "unknown")
    | some _ ↦ raised (failure "AttributeError" "object has no attribute 'get'")
  ]

  -- What `_delegate` does with the specialist's answer.
  unfoldable pub judge_answer : Fields → Graph c (Option Fields)
  unfolding fall_back error_message
  judge_answer result =
      let status = get_text c.python result "status" "" in
      if status == "completed"
      then (if valid_a2a_output c.python (get "output" result)
          then (do
            modify (λ m. record m { breaker = record_success m.breaker "a2a" })
            pure (some result))
          else fall_back true
              "Specialist output failed schema validation; treated as untrusted and ignored.")
      else (do
        modify (λ m. record m { breaker = record_failure m.breaker "a2a" })
        update c (λ r. record r { a2a_fallback = true })
        message ← from_result c (error_message result)
        fall_back false
            ("Specialist returned " <> status <> ": " <> message <> "; confidence reduced."))

  -- The `except` clauses around `deps.a2a.delegate`.
  unfoldable pub judge_failure : Exn → Graph c (Option Fields)
  unfolding fall_back
  judge_failure (timeout class message) = fall_back true (
      "Specialist delegation timed out ("
      <> safe_error (timeout class message)
      <> "); confidence reduced.")
  judge_failure run_cancelled = raise run_cancelled
  judge_failure e =
      fall_back true ("Specialist delegation failed (" <> safe_error e <> "); confidence reduced.")

  unfoldable pub judge : Result Exn Fields → Graph c (Option Fields)
  unfolding judge_answer judge_failure
  judge (returned result) = judge_answer result
  judge (raised e) = judge_failure e

  -- The `try` around `deps.a2a.delegate`.
  unfoldable pub call_specialist : Fields → Graph c (Option Fields)
  unfolding judge
  call_specialist request = do
    effect c (delegated request)
    r ← external c (λ w. let (r, w') = c.delegate request w in (returned r, w'))
    judge r

  -- `_delegate`
  unfoldable pub delegate : Graph c (Option Fields)
  unfolding fall_back call_specialist
  delegate = do
    circuit_open ← gets (λ m. is_open m.breaker "a2a")
    if circuit_open
        then fall_back false "A2A circuit open; degraded to orchestrator-only synthesis."
        else (do
          check_cancel c
          spend_delegation c
          r ← get_run c
          emit c agent_delegated (
              field "agent" (str "observability-agent") (
                field "skill_id" (str "correlate-service-symptoms")
                  (field "task_id" (str (r.run_id <> "-obs-1")) end)))
          call_specialist (a2a_request r))
