-- ===== src/Orchestrator/Utilities.antt =====
-- The small utilities at the end of apps/orchestrator/graph.py.
use Prim.Native.Char.{code}
use agent_workbench.Base.{
  ℕ, zero, suc, ◌+◌, ◌*◌, String, ◌<>◌, Bool, true, false, ◌&&◌, ◌||◌, Option, none, some, List, [],
  ◌∷◌, ◌==◌, string_eq, ltb, nat_eq, codes, lower, lower_code, is_infix, is_space, any, text_take,
  text_length, if◌then◌else◌, ℤ, pos, ◌+ℤ◌, ltb_ℤ, leb_ℤ,
}
use agent_workbench.Base.Action.{Result, returned, raised}
use agent_workbench.Base.Json.{
  Json, str, arr, obj, Items, nil, cons, Fields, end, field, get, key_count, truthy, truthy_option,
}
use agent_workbench.Base.Python.{Python, float_of, text_of}
use agent_workbench.Orchestrator.Clients.{Exn, run_cancelled, budget_exceeded, timeout, failure}

abbrev sensitive_words : List String
sensitive_words = "secret" ∷ "token" ∷ "password" ∷ "api_key" ∷ "apikey" ∷ "bearer" ∷ []

-- `_redact`
unfoldable pub redact_args : Fields → Fields
unfolding is_infix
redact_args end = end
redact_args (field k v fs) =
    field k
      (if any (λ w. is_infix (codes w) (lower (codes k))) sensitive_words
        then str "[redacted]"
        else v)
      (redact_args fs)

-- A word at the head of a text, in any case; the word is given in lower case.
after_word : List ℕ → String → Option String
after_word [] s = some s
after_word (p ∷ ps) String.[] = none
after_word (p ∷ ps) (String.◌∷◌ c s) = elim (nat_eq p (lower_code (code c))) [
  | true ↦ after_word ps s
  | false ↦ none
]

-- `\s*`, with whether there was any
after_spaces : Bool → String → Bool × String
unfolding is_space
after_spaces seen String.[] = (seen, "")
after_spaces seen (String.◌∷◌ c s) =
    let rest = after_spaces true s in if is_space (code c) then rest else (seen, String.◌∷◌ c s)

-- `\S+`
after_solid : Bool → String → Option String
unfolding is_space
after_solid seen String.[] = if seen then some "" else none
after_solid seen (String.◌∷◌ c s) =
    let rest = after_solid true s in
    if is_space (code c) then (if seen then some (String.◌∷◌ c s) else none) else rest

-- `bearer\s+\S+`
bearer_token : String → Option String
unfolding after_word after_spaces after_solid
bearer_token s = elim (after_word (codes "bearer") s) [
  | none ↦ none
  | some rest ↦
      let (spaced, tail) = after_spaces false rest in
      if spaced then after_solid false tail else none
]

-- `word\s*=\s*\S+`
assignment : String → String → Option String
unfolding after_word after_spaces after_solid
assignment word s = elim (after_word (codes word) s) [
  | none ↦ none
  | some rest ↦ elim (after_word (codes "=") (after_spaces false rest).1) [
    | none ↦ none
    | some value ↦ after_solid false (after_spaces false value).1
  ]
]

abbrev or_else : Option String → Option String → Option String
or_else (some s) o = some s
or_else none o = o

secret_at : String → Option String
unfolding bearer_token assignment
secret_at s =
    or_else (bearer_token s) (or_else (assignment "api_key" s) (assignment "client_secret" s))

mask_secrets : ℕ → String → String
unfolding secret_at
mask_secrets zero s = s
mask_secrets (suc fuel) String.[] = ""
mask_secrets (suc fuel) (String.◌∷◌ c s) = elim (secret_at (String.◌∷◌ c s)) [
  | some rest ↦ "[redacted]" <> mask_secrets fuel rest
  | none ↦ String.◌∷◌ c (mask_secrets fuel s)
]

abbrev class_and_text : Exn → String × String
class_and_text run_cancelled = ("RunCancelledError", "run was cancelled")
class_and_text (budget_exceeded message) = ("BudgetExceededError", message)
class_and_text (timeout class message) = (class, message)
class_and_text (failure class message) = (class, message)

-- `_safe_error(exc)`: each round of the substitution takes a character, so the length is the fuel.
unfoldable pub safe_error : Exn → String
unfolding mask_secrets
safe_error e =
    let (class, message) = class_and_text e in
    let head = text_take 500 message in
    let text = if head == "" then class else head in mask_secrets (suc (text_length text)) text

-- `_reject_malformed`: the dict, or the ValueError.
unfoldable pub reject_malformed : Python → Json → Result Exn Fields
reject_malformed py (obj out) =
    if ltb 128 (key_count out) || ltb 65536 (py.dumps_length (obj out))
    then raised (failure "ValueError" "tool returned oversize result")
    else returned out
reject_malformed py _ = raised (failure "ValueError" "tool returned malformed (non-dict) result")

abbrev non_empty_list : Option Json → Bool
non_empty_list (some (arr (cons j js))) = true
non_empty_list _ = false

abbrev confidence_in_range : Option ℤ → Bool
confidence_in_range none = false
confidence_in_range (some z) = leb_ℤ (pos 0) z && leb_ℤ z (pos 100)

-- One round of the loop of `_valid_a2a_output`; a missing confidence is read as -1.
unfoldable pub valid_finding : Python → Json → Bool
valid_finding py (obj f) =
    truthy_option (get "title" f)
    && truthy_option (get "summary" f)
    && non_empty_list (get "evidence_refs" f)
    && (elim (get "confidence" f) [ none ↦ false | some c ↦ confidence_in_range (float_of py c) ])
valid_finding py _ = false

unfoldable pub valid_findings : Python → Items → Bool
valid_findings py nil = true
valid_findings py (cons f fs) = valid_finding py f && valid_findings py fs

-- `_valid_a2a_output`
unfoldable pub valid_a2a_output : Python → Option Json → Bool
valid_a2a_output py (some (obj out)) = elim (get "findings" out) [
  | some (arr fs) ↦ valid_findings py fs
  | _ ↦ false
]
valid_a2a_output py _ = false

abbrev confidence_of : Python → Fields → Option ℤ
confidence_of py f = elim (get "confidence" f) [ none ↦ some (pos 0) | some c ↦ float_of py c ]

-- The sum and the number of the confidences that can be read.
sum_and_count : Python → List Fields → ℤ × ℕ
sum_and_count py [] = (pos 0, 0)
sum_and_count py (f ∷ fs) =
    let (total, n) = sum_and_count py fs in
    elim (confidence_of py f) [ none ↦ (total, n) | some z ↦ (z +ℤ total, n + 1) ]

-- `_avg_conf(findings) > 0.6`, with the division multiplied out.
unfoldable pub average_above_60 : Python → List Fields → Bool
unfolding sum_and_count
average_above_60 py fs =
    let (total, n) = sum_and_count py fs in ltb 0 n && ltb_ℤ (pos (60 * n)) total

-- The first piece of evidence from a tool: `next((e for e in … if e.get("tool") == tool), None)`.
unfoldable pub evidence_from : String → List Fields → Option Fields
evidence_from tool [] = none
evidence_from tool (e ∷ es) =
    if (elim (get "tool" e) [ some (str t) ↦ t == tool | _ ↦ false ])
    then some e
    else evidence_from tool es

-- `_deploy_state_text`
unfoldable pub deploy_state_text : Python → List Fields → Option String
deploy_state_text py evidence = elim (evidence_from "deployment.get_current_release" evidence) [
  | none ↦ none
  | some rel ↦ elim (get "release" rel) [
    | none ↦ none
    | some r ↦ if truthy r then some ("release " <> text_of py r <> " deployed") else none
  ]
]
