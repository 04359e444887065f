-- ===== src/Mcp/Inputs.antt =====
-- apps/mcp_server/models.py: the strict input model of each tool, as a list of its fields, and what
-- Pydantic does with one. A number is in hundredths, a date is its text.
use agent_workbench.Base.{
  ℕ, ◌*◌, String, Bool, true, false, ◌&&◌, Option, none, some, List, [], ◌∷◌, ◌==◌, string_eq, any,
  strip, if◌then◌else◌, pos, leb_ℤ,
}
use agent_workbench.Base.Dict.{Dict}
use agent_workbench.Base.Json.{Json, null, bool, num, str, obj, Fields, end, field, get}
use agent_workbench.Contracts.Fields.{is_id_text, within}
use agent_workbench.Mcp.Libraries.{Libraries}

-- The declared type of a field, with its bounds.
pub data Kind : Type 0 where
  text : ℕ → ℕ → Kind
  id_text : ℕ → ℕ → Kind
  literal : List String → Kind
  whole : ℕ → ℕ → Kind
  flag datetime dict : Kind

pub record InputField : Type 0 where
  pub name : String
  pub kind : Kind
  -- `| None`
  pub optional : Bool
  pub default : Option Json

abbrev required : String → Kind → InputField
required name kind = record { name = name; kind = kind; optional = false; default = none }

abbrev nullable : String → Kind → InputField
nullable name kind = record { name = name; kind = kind; optional = true; default = some null }

abbrev defaulted : String → Kind → Json → InputField
defaulted name kind d = record { name = name; kind = kind; optional = false; default = some d }

abbrev tenant : InputField
tenant = nullable "tenant_id" (id_text 1 128)

abbrev service : InputField
service = required "service" (text 1 128)

abbrev idempotency_key : InputField
idempotency_key = nullable "idempotency_key" (text 1 128)

abbrev aggregations : List String
aggregations = "average" ∷ "p95" ∷ "p99" ∷ "max" ∷ "min" ∷ "sum" ∷ "count" ∷ []

-- `TicketCreateInput.dry_run`
abbrev pub ticket_dry_run : InputField
ticket_dry_run = defaulted "dry_run" flag (bool false)

-- `TicketCreateInput`
abbrev pub ticket_create_input : List InputField
ticket_create_input =
    tenant
    ∷ required "title" (text 1 500)
    ∷ defaulted "severity" (text 1 32) (str "medium")
    ∷ nullable "description" (text 1 4000)
    ∷ nullable "service" (text 1 128)
    ∷ ticket_dry_run
    ∷ idempotency_key
    ∷ []

-- `INPUT_MODELS`
unfoldable pub input_models : Dict (List InputField)
input_models =
    (
      "telemetry.query_metrics",
      tenant
          ∷ service
          ∷ required "metric" (text 1 128)
          ∷ required "start_time" datetime
          ∷ required "end_time" datetime
          ∷ defaulted "aggregation" (literal aggregations) (str "average")
          ∷ [],
    )
    ∷ (
      "telemetry.query_logs",
      tenant
          ∷ service
          ∷ required "query" (text 1 2000)
          ∷ nullable "start_time" datetime
          ∷ nullable "end_time" datetime
          ∷ defaulted "limit" (whole 1 1000) (num (pos 10000))
          ∷ [],
    )
    ∷ ("telemetry.get_trace", tenant ∷ service ∷ nullable "trace_id" (text 1 128) ∷ [])
    ∷ ("service.get_health", tenant ∷ service ∷ [])
    ∷ (
      "knowledge.search",
      tenant ∷ required "query" (text 1 500) ∷ defaulted "top_k" (whole 1 20) (num (pos 500)) ∷ [],
    )
    ∷ ("knowledge.get_runbook", tenant ∷ required "runbook_id" (id_text 1 128) ∷ [])
    ∷ ("deployment.get_current_release", tenant ∷ service ∷ [])
    ∷ (
      "remediation.simulate",
      tenant
          ∷ required "action" (text 1 500)
          ∷ defaulted "parameters" dict (obj end)
          ∷ nullable "target_service" (text 1 128)
          ∷ idempotency_key
          ∷ [],
    )
    ∷ (
      "deployment.rollback",
      tenant
          ∷ required "deployment" (text 1 128)
          ∷ nullable "target_release" (text 1 128)
          ∷ nullable "reason" (text 1 1000)
          ∷ defaulted "dry_run" flag (bool true)
          ∷ idempotency_key
          ∷ [],
    )
    ∷ ("ticket.create", ticket_create_input)
    ∷ []

abbrev checked_text : Bool → String → Option Json
checked_text true s = some (str s)
checked_text false s = none

module _ (lib : Libraries) where
  -- `str_strip_whitespace=True` and the bounds of a text
  parse_text : ℕ → ℕ → Json → Option Json
  parse_text low high (str s) = checked_text (within low high (strip s)) (strip s)
  parse_text low high j = none

  parse_id : ℕ → ℕ → Json → Option Json
  parse_id low high (str s) =
      checked_text (within low high (strip s) && is_id_text (strip s)) (strip s)
  parse_id low high j = none

  parse_literal : List String → Json → Option Json
  parse_literal options (str s) = checked_text (any (λ o. o == s) options) s
  parse_literal options j = none

  parse_whole : ℕ → ℕ → Json → Option Json
  parse_whole low high j = elim (lib.int_value j) [
    | none ↦ none
    | some z ↦
        if leb_ℤ (pos (100 * low)) z && leb_ℤ z (pos (100 * high)) then some (num z) else none
  ]

  -- A value of the declared type
  unfoldable pub parse_kind : Kind → Json → Option Json
  unfolding parse_text parse_id parse_literal parse_whole
  parse_kind (text low high) j = parse_text low high j
  parse_kind (id_text low high) j = parse_id low high j
  parse_kind (literal options) j = parse_literal options j
  parse_kind (whole low high) j = parse_whole low high j
  parse_kind flag j = elim (lib.bool_value j) [ none ↦ none | some b ↦ some (bool b) ]
  parse_kind datetime j = elim (lib.datetime_value j) [ none ↦ none | some s ↦ some (str s) ]
  parse_kind dict j = elim (lib.dict_value j) [ none ↦ none | some fs ↦ some (obj fs) ]

  unfoldable pub parse_value : InputField → Json → Option Json
  parse_value f null = if f.optional then some null else parse_kind f.kind null
  parse_value f j = parse_kind f.kind j

  -- A field that is given, or its default
  unfoldable pub parse_field : InputField → Fields → Option Json
  unfolding parse_value
  parse_field f raw = elim (get f.name raw) [ none ↦ f.default | some j ↦ parse_value f j ]

  unfoldable pub parse_fields : List InputField → Fields → Option Fields
  unfolding parse_field
  parse_fields [] raw = some end
  parse_fields (f ∷ fs) raw =
      let rest = parse_fields fs raw in
      elim (parse_field f raw) [
        | none ↦ none
        | some v ↦ elim rest [ none ↦ none | some vs ↦ some (field f.name v vs) ]
      ]

  -- `extra="forbid"`
  unfoldable pub only_declared : List InputField → Fields → Bool
  only_declared fs end = true
  only_declared fs (field k v raw) = any (λ f. f.name == k) fs && only_declared fs raw

  -- `model(**raw_args).model_dump(mode="json")`, or none for a ValidationError
  unfoldable pub parse_input : List InputField → Fields → Option Fields
  unfolding parse_fields only_declared
  parse_input fs raw = if only_declared fs raw then parse_fields fs raw else none
