-- ===== src/Orchestrator/Graph/Steps.antt =====
-- The steps up to the findings (graph.py: `_do_classify` to `_do_findings`). A step that returns a
-- Boolean returns whether the run ends there.
use agent_workbench.Base.{
  String, ◌<>◌, Bool, true, false, not, ◌&&◌, ◌||◌, Option, none, some, List, [], ◌∷◌, ◌++◌, ◌==◌,
  string_eq, ltb, length, take, is_empty, if◌then◌else◌, map, pos,
}
use agent_workbench.Base.Action.{Result, returned, raised, pure, when, ◌>>=◌, ◌>>◌}
use agent_workbench.Base.Json.{
  Json, bool, num, str, arr, obj, items, texts, Fields, end, field, get, put, merge,
  jsonable_fields, truthy_option, optional_text,
}
use agent_workbench.Base.Python.{Python, get_text}
use agent_workbench.Contracts.Events.{
  message_delta, tool_started, tool_completed, finding_created, run_completed,
}
use agent_workbench.Orchestrator.Clients.{Exn, Clients}
use agent_workbench.Orchestrator.Graph.Core.{
  Graph, update, get_run, external, from_result, save, emit, transition, spend_model,
}
use agent_workbench.Orchestrator.Graph.Calls.{mcp_read, delegate}
use agent_workbench.Orchestrator.Graph.Evidence.{
  findings_of, iterated, cap_confidence, reduce_confidence, build_findings, max_confidence,
  finding_json,
}
use agent_workbench.Orchestrator.State.{
  RunState, RunStatus, Outcome, Finding, plan, resources, mcp_reads, a2a_delegate, correlate,
  findings, propose, complete,
}
use agent_workbench.Orchestrator.Utilities.{average_above_60, evidence_from}

abbrev pub unresolved_json : RunState → Json
unresolved_json r = arr (texts r.unresolved)

abbrev pub add_unresolved : String → RunState → RunState
add_unresolved note r = record r { unresolved = r.unresolved ++ note ∷ [] }

-- `state.a2a_result["output"]`, where the result is not empty and that is a dict.
unfoldable pub output_of : Option Fields → Option Fields
output_of none = none
output_of (some result) = elim (get "output" result) [ some (obj out) ↦ some out | _ ↦ none ]

abbrev pub conflict_note : String
conflict_note =
    "Specialist reports anomaly (avg conf > 0.6) but primary service.get_health reports healthy; both retained, confidence capped."

-- Whether the primary health check says "healthy".
unfoldable pub reports_healthy : List Fields → Bool
reports_healthy evidence = elim (evidence_from "service.get_health" evidence) [
  | none ↦ false
  | some e ↦ elim (get "status" e) [ some (str s) ↦ s == "healthy" | _ ↦ false ]
]

-- The dicts in the list are the specialist's own: what is written to them is read again later.
unfoldable pub write_findings : List Fields → Option Fields → Option Fields
write_findings fs none = none
write_findings fs (some result) = elim (get "output" result) [
  | some (obj out) ↦
      some (put "output" (obj (put "findings" (arr (items (map obj fs))) out)) result)
  | _ ↦ some result
]

ref_of : Fields → Json
ref_of e = elim (get "ref" e) [ none ↦ str "telemetry://m/1" | some j ↦ j ]

-- The orchestrator's own finding, from the primary evidence alone.
unfoldable pub own_finding : Python → RunState → Fields
unfolding ref_of
own_finding py r =
    field "title" (str ("Elevated errors in " <> get_text py r.context "service" "checkout-api")) (
      field "summary" (str "Primary telemetry shows elevated errors; specialist unavailable.") (
        field "evidence_refs" (arr (items (map ref_of (take 2 r.mcp_evidence))))
          (field "confidence" (num (pos 45)) end)))

module _ (c : Clients) where
  -- The end of a run at a step: `state.outcome` and `state.status` before the last transition.
  unfoldable pub conclude : Outcome → Graph c (Unit {0})
  conclude o = update c (λ r. record r { outcome = some o; status = RunStatus.completed })

  -- `_do_classify`
  unfoldable pub do_classify : Graph c Bool
  do_classify = do
    spend_model c
    r ← get_run c
    found ← external c (c.classify r.objective r.context)
    update c (λ r. record r { classification = found })
    transition c plan message_delta (field "classification" (obj found) end)
    if truthy_option (get "needs_clarification" found)
        then (do
          conclude Outcome.clarify
          let q = get_text c.python found "reason" "insufficient context"
          update c (add_unresolved ("Clarification needed: " <> q))
          emit c message_delta (
              field "clarification_question"
                (str ("Please clarify: " <> q <> ". Include service name.")) end)
          r ← get_run c
          transition c complete run_completed
              (field "outcome" (str "clarify") (field "unresolved" (unresolved_json r) end))
          pure true)
        else pure false

  -- `_do_plan`
  unfoldable pub do_plan : Graph c (Unit {0})
  do_plan = do
    spend_model c
    r ← get_run c
    steps ← external c (c.plan r.objective r.classification)
    update c (λ r. record r { plan = steps })
    transition c resources message_delta (field "plan" (arr (texts steps)) end)

  -- `_do_resources`
  unfoldable pub do_resources : Graph c (Unit {0})
  do_resources = do
    r ← get_run c
    let service = get_text c.python r.context "service" "checkout-api"
    let uri = "resource://services/" <> service
    update c (λ r. record r {
      resources =
          field "service" (str service)
            (field "uri" (str uri) (field "slo" (str "99.9%") (field "owner" (str "sre") end)));
    })
    transition c mcp_reads tool_started
        (field "tool_name" (str "resource.read") (field "uri" (str uri) end))

  unfoldable pub add_evidence : String → Option Fields → Graph c (Unit {0})
  add_evidence tool none = pure tt
  add_evidence tool (some found) = update c (λ r. record r {
    mcp_evidence =
        r.mcp_evidence ++ merge (field "tool" (str tool) end) (jsonable_fields found) ∷ [];
  })

  -- One round of the loop of `_do_mcp_reads`.
  unfoldable pub read_evidence : String → Fields → Graph c (Unit {0})
  unfolding add_evidence
  read_evidence tool args = do out ← mcp_read c tool args; add_evidence tool out

  -- `_do_mcp_reads`
  unfoldable pub do_mcp_reads : Graph c (Unit {0})
  do_mcp_reads = do
    r ← get_run c
    let args : Fields =
        field "service" (str (get_text c.python r.context "service" "checkout-api")) end
    read_evidence "telemetry.query_metrics" args
    read_evidence "telemetry.query_logs" args
    read_evidence "service.get_health" args
    read_evidence "deployment.get_current_release" args
    r ← get_run c
    when (is_empty r.mcp_evidence) (
        update c
          (add_unresolved "All primary MCP reads failed; proceeding with degraded evidence."))
    transition c a2a_delegate tool_completed
        (field "evidence_count" (num (pos (length r.mcp_evidence))) end)

  -- `_do_delegate`
  unfoldable pub do_delegate : Graph c (Unit {0})
  do_delegate = do
    result ← delegate c
    let clean : Option Fields = elim result [ none ↦ none | some f ↦ some (jsonable_fields f) ]
    update c (λ r. record r { a2a_result = clean })
    r ← get_run c
    transition c correlate message_delta (
        field "delegated" (bool (elim result [ none ↦ false | some _ ↦ true ]))
          (field "fallback" (bool r.a2a_fallback) end))

  -- The specialist's findings and questions, as `_do_correlate` first reads them.
  unfoldable pub specialist_says : RunState → Result Exn (List Fields × List String)
  specialist_says r = elim (output_of r.a2a_result) [
    | none ↦ returned ([], [])
    | some out ↦ elim (findings_of out) [
      | raised e ↦ raised e
      | returned fs ↦ elim (get "unresolved_questions" out) [
        | none ↦ returned (fs, [])
        | some q ↦ elim (iterated c.python q) [
          | raised e ↦ raised e
          | returned qs ↦ returned (fs, qs)
        ]
      ]
    ]
  ]

  -- The conflict check and the two corrections of the confidences.
  unfoldable pub correct : List Fields → List String → RunState → RunState
  correct fs questions r =
      let conflicting =
        reports_healthy r.mcp_evidence && not (is_empty fs) && average_above_60 c.python fs in
      let capped = if conflicting then map (cap_confidence c.python) fs else fs in
      let final = if r.a2a_fallback then map (reduce_confidence c.python) capped else capped in
      record r {
        a2a_result =
            if conflicting || r.a2a_fallback
            then write_findings final r.a2a_result
            else r.a2a_result;
        conflict = if conflicting then some conflict_note else r.conflict;
        unresolved =
            (if conflicting then r.unresolved ++ conflict_note ∷ [] else r.unresolved) ++ questions;
      }

  -- `_do_correlate`
  unfoldable pub do_correlate : Graph c (Unit {0})
  do_correlate = do
    r ← get_run c
    said ← from_result c (specialist_says r)
    update c (correct said.0 said.1)
    save c
    update c (λ r. record r { current_state = findings })
    r ← get_run c
    emit c message_delta (
        field "correlation"
          (obj (
            field "specialist_findings" (num (pos (length said.0))) (
              field "fallback" (bool r.a2a_fallback)
                (field "conflict" (optional_text r.conflict) end))))
          end)
    save c

  -- What `_do_findings` starts from: the specialist's findings, or one of its own.
  unfoldable pub raw_findings : RunState → Result Exn (List Fields × Bool)
  raw_findings r =
      let said : Result Exn (List Fields) = elim (output_of r.a2a_result) [
        | none ↦ returned []
        | some out ↦ findings_of out
      ] in
      elim said [
        | raised e ↦ raised e
        | returned fs ↦
            if is_empty fs && not (is_empty r.mcp_evidence)
            then returned (own_finding c.python r ∷ [], true)
            else returned (fs, false)
      ]

  unfoldable pub emit_findings : List Finding → Graph c (Unit {0})
  emit_findings [] = pure tt
  emit_findings (f ∷ fs) = do
    r ← get_run c
    emit c finding_created (field "finding" (finding_json r f) end)
    emit_findings fs

  -- LOW_CONFIDENCE_THRESHOLD = 0.5
  unfoldable pub is_low : List Finding → Bool
  is_low fs = is_empty fs || ltb (max_confidence fs) 50

  -- `_do_findings`
  unfoldable pub do_findings : Graph c Bool
  unfolding emit_findings
  do_findings = do
    r ← get_run c
    raw ← from_result c (raw_findings r)
    when raw.1
        (update c (add_unresolved "Orchestrator-only synthesis; specialist evidence missing."))
    let (kept, dropped) = build_findings c.python r.run_id 0 raw.0
    update c (λ r. record r { unresolved = r.unresolved ++ dropped; findings = kept })
    emit_findings kept
    save c
    if is_low kept
        then (do
          conclude Outcome.more_info
          update c (
              add_unresolved
                "Confidence below 0.5; more telemetry (metrics_refs/logs_refs/traces) is needed.")
          emit c message_delta (
              field "more_info" (str "Please supply additional telemetry refs for re-analysis.")
                end)
          r ← get_run c
          transition c complete run_completed
              (field "outcome" (str "more_info") (field "unresolved" (unresolved_json r) end))
          pure true)
        else (do update c (λ r. record r { current_state = propose }); save c; pure false)
