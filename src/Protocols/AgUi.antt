-- ===== src/Protocols/AgUi.antt =====
-- packages/protocols/ag_ui.py: canonical events become events of the AG-UI protocol, each a dict. The
-- text of a timestamp comes with the event; `int(s)` of a text is a parameter.
pub mod Rendering
pub mod Batch
use agent_workbench.Base.{
  ℕ, zero, suc, ◌*◌, ◌/◌, String, Bool, true, false, Option, none, some, List, [], ◌∷◌, ◌==◌,
  string_eq, ℤ, pos, negsuc, if◌then◌else◌, any,
}
use agent_workbench.Base.Action.{Result, returned, raised}
use agent_workbench.Base.Dict.{Dict, lookup}
use agent_workbench.Base.Json.{
  Json, null, bool, num, str, arr, nil, obj, Fields, end, field, get, merge, truthy, optional_text,
}
use agent_workbench.Base.Python.{Python, get_text}
use agent_workbench.Base.Sort.{Keyed, sort_keyed}
use agent_workbench.Contracts.Events.{
  AgentEvent, EventType, run_started, message_delta, tool_started, tool_completed, agent_delegated,
  finding_created, approval_required, approval_received, run_completed, run_failed, run_cancelled,
}

pub data UiError : Type 0 where
  attribute_error type_error value_error : UiError

-- `AgentEvent | dict[str, Any]`
pub data AnyEvent : Type 0 where
  canonical : AgentEvent → String → AnyEvent
  raw : Fields → AnyEvent

-- `EventType.….value`
unfoldable pub type_value : EventType → String
type_value run_started = "run.started"
type_value message_delta = "message.delta"
type_value tool_started = "tool.started"
type_value tool_completed = "tool.completed"
type_value agent_delegated = "agent.delegated"
type_value finding_created = "finding.created"
type_value approval_required = "approval.required"
type_value approval_received = "approval.received"
type_value run_completed = "run.completed"
type_value run_failed = "run.failed"
type_value run_cancelled = "run.cancelled"

unfoldable pub ag_ui_type_by_canonical : Dict String
ag_ui_type_by_canonical =
    ("run.started", "RUN_STARTED")
    ∷ ("message.delta", "TEXT_MESSAGE_CONTENT")
    ∷ ("tool.started", "TOOL_CALL_START")
    ∷ ("tool.completed", "TOOL_CALL_FINISH")
    ∷ ("agent.delegated", "ACTIVITY")
    ∷ ("finding.created", "STATE_SNAPSHOT")
    ∷ ("approval.required", "FRONTEND_INTERACTION")
    ∷ ("approval.received", "STATE_UPDATE")
    ∷ ("run.completed", "RUN_FINISHED")
    ∷ ("run.failed", "RUN_ERROR")
    ∷ ("run.cancelled", "RUN_CANCELLED")
    ∷ []

unfoldable pub terminal_ag_ui : List String
terminal_ag_ui = "RUN_FINISHED" ∷ "RUN_ERROR" ∷ "RUN_CANCELLED" ∷ []

-- `_as_dict`
unfoldable pub as_dict : AnyEvent → Fields
unfolding type_value
as_dict (canonical e timestamp) = field "schema_version" (str "1.0") (
    field "event_id" (str e.event_id) (
      field "run_id" (str e.run_id) (
        field "tenant_id" (str e.tenant_id) (
          field "sequence" (num (pos (100 * e.sequence))) (
            field "type" (str (type_value e.type)) (
              field "timestamp" (str timestamp) (
                field "data" (obj e.payload) (
                  field "trace_id" (optional_text e.trace_id) (
                    field "correlation_id" (optional_text e.correlation_id) (
                      field "sensitive" (bool e.sensitive)
                        (field "safe_for_ui" (bool e.safe_for_ui) end)))))))))))
as_dict (raw d) = d

-- `x is True`
abbrev pub is_true : Option Json → Bool
is_true (some (bool b)) = b
is_true _ = false

-- `is_renderable`, of the dict
unfoldable pub is_renderable : Fields → Bool
is_renderable d = if is_true (get "sensitive" d) then false else is_true (get "safe_for_ui" d)

-- `d.get(k, default)`
abbrev pub get_or : String → Fields → Json → Json
get_or k d default = elim (get k d) [ none ↦ default | some j ↦ j ]

-- `d.get(k)`
abbrev pub get_null : String → Fields → Json
get_null k d = get_or k d null

-- `data.get(k) or …`
unfoldable pub first_truthy : List String → Fields → Json
first_truthy [] payload = str ""
first_truthy (k ∷ ks) payload =
    let rest = first_truthy ks payload in
    if truthy (get_null k payload) then get_null k payload else rest

-- `raw_data if isinstance(raw_data, dict) else {}`
abbrev pub data_of : Option Json → Fields
data_of (some (obj payload)) = payload
data_of _ = end

abbrev card : Fields → Fields
card finding = field "kind" (str "finding") (
    field "title" (get_null "title" finding) (
      field "summary" (get_null "summary" finding) (
        field "confidence" (get_null "confidence" finding) (
          field "severity" (get_null "severity" finding) (
            field "evidence_refs" (get_or "evidence_refs" finding (arr nil))
              (field "finding_id" (get_null "finding_id" finding) end))))))

-- `finding = data.get("finding", data)`, whose `.get` only a dict has
unfoldable pub snapshot : Fields → Option Json → Result UiError Fields
snapshot payload none = returned (card payload)
snapshot payload (some (obj finding)) = returned (card finding)
snapshot payload (some _) = raised UiError.attribute_error

abbrev message : Fields → Fields
message payload =
    field "delta"
      (first_truthy
        ("delta" ∷ "text" ∷ "clarification_question" ∷ "more_info" ∷ "policy_denial" ∷ []) payload)
      (field "raw" (obj payload) end)

abbrev tool_call : Fields → Fields
tool_call payload = field "tool_name" (get_null "tool_name" payload) (
    field "status" (get_null "status" payload) (
      field "action_id" (get_null "action_id" payload) (
        field "latency_s" (get_null "latency_s" payload) (
          field "error" (get_null "error" payload)
            (field "args" (get_or "args" payload (obj end)) end)))))

abbrev activity : Fields → Fields
activity payload = field "agent" (get_null "agent" payload) (
    field "skill_id" (get_null "skill_id" payload) (
      field "task_id" (get_null "task_id" payload)
        (field "status" (get_or "status" payload (str "delegated")) end)))

abbrev interaction : Fields → Fields
interaction payload = field "kind" (str "approval") (
    field "actions" (get_or "actions" payload (arr nil))
      (field "approvals" (get_or "approvals" payload (arr nil)) end))

abbrev decision_update : Fields → Fields
decision_update payload = field "decision" (get_null "decision" payload) (
    field "approver" (get_null "approver" payload)
      (field "approval_id" (get_null "approval_id" payload) end))

-- `base["data"]`
unfoldable pub body : String → String → Json → Fields → Result UiError Fields
unfolding terminal_ag_ui
body ag_type canonical_type run_id payload =
    if ag_type == "RUN_STARTED"
    then returned (merge (field "run_id" run_id end) payload)
    else if ag_type == "TEXT_MESSAGE_CONTENT"
    then returned (message payload)
    else if any (λ t. ag_type == t) ("TOOL_CALL_START" ∷ "TOOL_CALL_FINISH" ∷ [])
    then returned (tool_call payload)
    else if ag_type == "ACTIVITY"
    then returned (activity payload)
    else if ag_type == "STATE_SNAPSHOT"
    then snapshot payload (get "finding" payload)
    else if ag_type == "FRONTEND_INTERACTION"
    then returned (interaction payload)
    else if ag_type == "STATE_UPDATE"
    then returned (decision_update payload)
    else if any (λ t. ag_type == t) terminal_ag_ui
    then returned payload
    else returned (field "canonical_type" (str canonical_type) (field "payload" (obj payload) end))

unfoldable pub base : String → Fields → Fields → Fields
base ag_type d payload = field "type" (str ag_type) (
    field "sequence" (get_or "sequence" d (num (pos 0))) (
      field "event_id" (get_null "event_id" d) (
        field "run_id" (get_null "run_id" d) (
          field "timestamp" (get_null "timestamp" d)
            (field "trace_id" (get_null "trace_id" d) (field "data" (obj payload) end))))))

abbrev pub ag_type_of : Option String → String
ag_type_of none = "UNKNOWN"
ag_type_of (some t) = t

abbrev pub with_base : String → Fields → Result UiError Fields → Result UiError (Option Fields)
with_base ag_type d (returned payload) = returned (some (base ag_type d payload))
with_base ag_type d (raised e) = raised e

module _ (py : Python) where
  -- What follows the filter
  unfoldable pub rendered : Fields → Result UiError (Option Fields)
  unfolding ag_ui_type_by_canonical
  rendered d =
      let canonical_type = get_text py d "type" "" in
      let ag_type = ag_type_of (lookup canonical_type ag_ui_type_by_canonical) in
      with_base ag_type d
        (body ag_type canonical_type (get_null "run_id" d) (data_of (get "data" d)))

  -- `to_ag_ui`
  unfoldable pub to_ag_ui : AnyEvent → Result UiError (Option Fields)
  to_ag_ui e = if is_renderable (as_dict e) then rendered (as_dict e) else returned none

  -- `is_terminal_ag_ui`
  unfoldable pub is_terminal_ag_ui : Fields → Bool
  unfolding terminal_ag_ui
  is_terminal_ag_ui event = any (λ t. get_text py event "type" "" == t) terminal_ag_ui

abbrev pub minus : ℕ → ℤ
minus zero = pos 0
minus (suc n) = negsuc n

-- `int(x)` of a number in hundredths
abbrev pub truncated : ℤ → ℤ
truncated (pos n) = pos (n / 100)
truncated (negsuc n) = minus (suc n / 100)

abbrev pub parsed : Option ℤ → Result UiError ℤ
parsed none = raised UiError.value_error
parsed (some z) = returned z

abbrev pub add_first : {A : Type 0} → A → Result UiError (List A) → Result UiError (List A)
add_first x (returned xs) = returned (x ∷ xs)
add_first x (raised error) = raised error

-- A row that was mapped, and the rest of the loop
abbrev pub add_mapped :
    Result UiError (Option Fields) → Result UiError (List Fields) → Result UiError (List Fields)
add_mapped (raised error) rest = raised error
add_mapped (returned none) rest = rest
add_mapped (returned (some m)) rest = add_first m rest

abbrev pub add_keyed :
    Result UiError ℤ
    → Fields
    → Result UiError (List (Keyed Fields))
    → Result UiError (List (Keyed Fields))
add_keyed (raised error) m rest = raised error
add_keyed (returned k) m rest = add_first (record { key = k; value = m }) rest

-- The loop of `batch_to_ag_ui`
unfoldable pub mapped : Python → List AnyEvent → Result UiError (List Fields)
mapped py [] = returned []
mapped py (e ∷ es) = add_mapped (to_ag_ui py e) (mapped py es)

abbrev pub values : List (Keyed Fields) → List Fields
values [] = []
values (k ∷ ks) = k.value ∷ values ks

abbrev pub sorted_rows : Result UiError (List (Keyed Fields)) → Result UiError (List Fields)
sorted_rows (returned ks) = returned (values (sort_keyed ks))
sorted_rows (raised error) = raised error

module _ (parse_int : String → Option ℤ) where
  -- `int(x)`
  unfoldable pub int_of : Json → Result UiError ℤ
  int_of (num z) = returned (truncated z)
  int_of (bool true) = returned (pos 1)
  int_of (bool false) = returned (pos 0)
  int_of (str s) = parsed (parse_int s)
  int_of _ = raised UiError.type_error

  -- `key=lambda m: int(m.get("sequence", 0))`
  unfoldable pub keyed : List Fields → Result UiError (List (Keyed Fields))
  keyed [] = returned []
  keyed (m ∷ ms) = add_keyed (int_of (get_or "sequence" m (num (pos 0)))) m (keyed ms)

  abbrev pub sort_rows : Result UiError (List Fields) → Result UiError (List Fields)
  sort_rows (returned ms) = sorted_rows (keyed ms)
  sort_rows (raised error) = raised error

  -- `batch_to_ag_ui`
  unfoldable pub batch_to_ag_ui : Python → List AnyEvent → Result UiError (List Fields)
  batch_to_ag_ui py events = sort_rows (mapped py events)
