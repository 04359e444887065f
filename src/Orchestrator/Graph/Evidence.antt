-- ===== src/Orchestrator/Graph/Evidence.antt =====
-- How the specialist's findings are read, capped and checked (the pure parts of `_do_correlate` and
-- `_do_findings` in graph.py). Findings in an answer that `_valid_a2a_output` never passed may be
-- no dicts: the graph raises there, and so does the model, for the whole list at once.
pub mod Bounds
use agent_workbench.Base.{
  ℕ, zero, suc, ◌+◌, String, ◌<>◌, Bool, true, false, not, ◌&&◌, ◌||◌, Option, none, some, List, [],
  ◌∷◌, ◌++◌, ◌==◌, string_eq, leb, ltb, decimal, text_take, strip, take, is_empty, characters,
  if◌then◌else◌, ℤ, pos, negsuc, ◌-ℤ◌, min_ℤ,
}
use agent_workbench.Base.Action.{Result, returned, raised}
use agent_workbench.Base.Json.{
  Json, null, num, str, arr, obj, Items, nil, cons, items, texts, to_list, Fields, end, field, get,
  put,
}
use agent_workbench.Base.Python.{Python, text_of, get_text, float_of}
use agent_workbench.Orchestrator.Clients.{Exn, failure}
use agent_workbench.Orchestrator.State.{Finding, Severity, RunState}

-- `{k for k in d}`
keys : Fields → List String
keys end = []
keys (field k v fs) = k ∷ keys fs

dicts_of : Items → Option (List Fields)
dicts_of nil = some []
dicts_of (cons (obj f) js) = elim (dicts_of js) [ none ↦ none | some fs ↦ some (f ∷ fs) ]
dicts_of (cons j js) = none

-- `list(out.get("findings", []))`
unfoldable pub findings_of : Fields → Result Exn (List Fields)
unfolding dicts_of
findings_of out = elim (get "findings" out) [
  | none ↦ returned []
  | some (arr js) ↦ elim (dicts_of js) [
    | none ↦ raised (failure "AttributeError" "object has no attribute 'get'")
    | some fs ↦ returned fs
  ]
  | some _ ↦ raised (failure "TypeError" "object is not iterable")
]

-- `max(0.0, min(1.0, conf))`
unfoldable pub clamp_confidence : ℤ → ℕ
clamp_confidence (pos n) = if ltb n 100 then n else 100
clamp_confidence (negsuc n) = 0

unfoldable pub severity_of : ℕ → Severity
severity_of conf =
    if leb 75 conf then Severity.high else if leb 50 conf then Severity.medium else Severity.low

-- A finding that passed the checks.
unfoldable pub kept_finding : String → ℕ → String → String → List String → ℤ → Finding
kept_finding run_id i title summary refs z = record {
  finding_id = run_id <> "-f" <> decimal i;
  title = text_take 256 title;
  summary = text_take 4000 summary;
  evidence_refs = take 16 refs;
  confidence = clamp_confidence z;
  severity = severity_of (clamp_confidence z);
}

-- The checks on what was read of a finding; no `float` is as bad as no list.
unfoldable pub checked_finding :
    String → ℕ → String → String → Result Exn (List String) → Option ℤ → Result String Finding
checked_finding run_id i title summary (returned refs) (some z) =
    if title == "" || summary == "" || is_empty refs
    then raised ("Finding " <> decimal i <> " dropped: missing title/summary/evidence.")
    else returned (kept_finding run_id i title summary refs z)
checked_finding run_id i title summary _ _ =
    raised ("Finding " <> decimal i <> " dropped: schema validation failed.")

module _ (py : Python) where
  texts_of : List Json → List String
  texts_of [] = []
  texts_of (j ∷ js) =
      let rest = texts_of js in if text_of py j == "" then rest else text_of py j ∷ rest

  -- `[str(q) for q in x if str(q)]` for any value; a dict gives its keys, a text its characters.
  unfoldable pub iterated : Json → Result Exn (List String)
  unfolding texts_of keys
  iterated (arr js) = returned (texts_of (to_list js))
  iterated (str s) = returned (characters s)
  iterated (obj fs) = returned (texts_of (to_list (texts (keys fs))))
  iterated _ = raised (failure "TypeError" "object is not iterable")

  -- `f["confidence"] = min(float(…), 0.6)`, or 0.5 for what is no number
  unfoldable pub cap_confidence : Fields → Fields
  cap_confidence f = elim (get "confidence" f) [
    | none ↦ put "confidence" (num (pos 0)) f
    | some j ↦ elim (float_of py j) [
      | none ↦ put "confidence" (num (pos 50)) f
      | some z ↦ put "confidence" (num (min_ℤ z (pos 60))) f
    ]
  ]

  -- `f["confidence"] = round(float(…) - 0.15, 2)`, or 0.4
  unfoldable pub reduce_confidence : Fields → Fields
  reduce_confidence f = elim (get "confidence" f) [
    | none ↦ put "confidence" (num (pos 0 -ℤ pos 15)) f
    | some j ↦ elim (float_of py j) [
      | none ↦ put "confidence" (num (pos 40)) f
      | some z ↦ put "confidence" (num (z -ℤ pos 15)) f
    ]
  ]

  unfoldable pub evidence_refs_of : Fields → Result Exn (List String)
  evidence_refs_of f = elim (get "evidence_refs" f) [ none ↦ returned [] | some j ↦ iterated j ]

  unfoldable pub raw_confidence : Fields → Option ℤ
  raw_confidence f = elim (get "confidence" f) [ none ↦ some (pos 0) | some j ↦ float_of py j ]

  -- One round of the loop of `_do_findings`: a finding, or the note on why it was dropped.
  unfoldable pub build_finding : String → ℕ → Fields → Result String Finding
  unfolding evidence_refs_of raw_confidence checked_finding kept_finding
  build_finding run_id i f =
      checked_finding run_id i (strip (get_text py f "title" ""))
        (strip (get_text py f "summary" "")) (evidence_refs_of f) (raw_confidence f)

  -- The loop: the findings kept, and the notes on those dropped.
  unfoldable pub build_findings : String → ℕ → List Fields → List Finding × List String
  build_findings run_id i [] = ([], [])
  build_findings run_id i (f ∷ fs) =
      let (kept, dropped) = build_findings run_id (suc i) fs in
      elim (build_finding run_id i f) [
        | raised note ↦ (kept, note ∷ dropped)
        | returned finding ↦ (finding ∷ kept, dropped)
      ]

-- `max((f["confidence"] for f in findings), default=0.0)`
unfoldable pub max_confidence : List Finding → ℕ
max_confidence [] = 0
max_confidence (f ∷ fs) =
    let rest = max_confidence fs in if ltb rest f.confidence then f.confidence else rest

-- `max(state.findings, key=…)`: the first of the largest.
unfoldable pub top_finding : Finding → List Finding → Finding
top_finding best [] = best
top_finding best (f ∷ fs) = top_finding (if ltb best.confidence f.confidence then f else best) fs

abbrev pub severity_text : Severity → String
severity_text Severity.low = "low"
severity_text Severity.medium = "medium"
severity_text Severity.high = "high"

-- A finding as the dict that the events carry.
unfoldable pub finding_json : RunState → Finding → Json
finding_json r f = obj (
    field "schema_version" (str "1.0") (
      field "finding_id" (str f.finding_id) (
        field "run_id" (str r.run_id) (
          field "tenant_id" (str r.tenant_id) (
            field "title" (str f.title) (
              field "summary" (str f.summary) (
                field "evidence_refs" (arr (texts f.evidence_refs)) (
                  field "confidence" (num (pos f.confidence))
                    (field "severity" (str (severity_text f.severity)) end)))))))))
