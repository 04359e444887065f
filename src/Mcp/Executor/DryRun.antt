-- ===== src/Mcp/Executor/DryRun.antt =====
-- The dry runs of ticket.create: what the gate reads, and what the handler does.
use agent_workbench.Base.{
  ◌≡◌, refl, ap, sym, ◌∙◌, subst, String, Bool, true, false, not, Option, none, some, List, [], ◌∷◌,
  ◌==◌, string_eq, eq_iff, arith, if◌then◌else◌,
}
use agent_workbench.Base.Action.{returned, raise_if, ◌>>=◌, ◌>>◌}
use agent_workbench.Base.Json.{Json, bool, str, Fields, end, field, get, put, truthy}
use agent_workbench.Mcp.Calls.{McpServer, Call, is_dry_run}
use agent_workbench.Mcp.Executor.{gate_write}
use agent_workbench.Mcp.Handlers.{create_ticket}
use agent_workbench.Mcp.Inputs.{
  InputField, ticket_dry_run, ticket_create_input, parse_field, parse_fields, parse_input,
  only_declared,
}
use agent_workbench.Mcp.Libraries.{Libraries}

-- The field of a name
find_field : String → List InputField → Option InputField
find_field name [] = none
find_field name (f ∷ fs) = if name == f.name then some f else find_field name fs

-- A parsed field is under its name.
get-parse_fields :
    (lib : Libraries) (name : String) (f : InputField) (fs : List InputField) (raw out : Fields)
    → find_field name fs ≡ some f
    → parse_fields lib fs raw ≡ some out
    → get name out ≡ parse_field lib f raw
unfolding find_field parse_fields get
get-parse_fields lib name f [] raw out found parsed = absurd (cc found)
get-parse_fields lib name f (g ∷ fs) raw out found parsed =
    parts (λ vs. get-parse_fields lib name f fs raw vs) (name == g.name) (parse_field lib g raw)
      (parse_fields lib fs raw) refl refl refl found parsed
  where
    parts :
        ((vs : Fields)
          → find_field name fs ≡ some f
          → parse_fields lib fs raw ≡ some vs
          → get name vs ≡ parse_field lib f raw)
        → (b : Bool) → (v : Option Json) → (rest : Option Fields) → (name == g.name) ≡ b
        → parse_field lib g raw ≡ v
        → parse_fields lib fs raw ≡ rest
        → (if b then some g else find_field name fs) ≡ some f
        → (elim v as (λ _. Option Fields) [
          | none ↦ none
          | some w ↦ elim rest [ none ↦ none | some vs ↦ some (field g.name w vs) ]
        ])
          ≡ some out
        → get name out ≡ parse_field lib f raw
    parts ih b none rest eb ev er found h = absurd (cc h)
    parts ih b (some w) none eb ev er found h = absurd (cc h)
    parts ih true (some w) (some vs) eb ev er found h =
        let same : field g.name w vs ≡ out = cc h in
        let here : g ≡ f = cc found in
        subst (λ o. get name o ≡ parse_field lib f raw) same
          (rw eb (sym ev ∙ ap (λ x. parse_field lib x raw) here))
    parts ih false (some w) (some vs) eb ev er found h =
        let same : field g.name w vs ≡ out = cc h in
        subst (λ o. get name o ≡ parse_field lib f raw) same (rw eb (ih vs found er))

get-put_other :
    (k j : String) (v : Json) (fs : Fields) → (j == k) ≡ false → get j (put k v fs) ≡ get j fs
unfolding get put
get-put_other k j v end h = rw h
get-put_other k j v (field i w fs) h =
    ground (arith, get-put_other k j v fs h, eq_iff k i, eq_iff j i, eq_iff j k)

parsed_fields :
    (lib : Libraries) (fs : List InputField) (raw out : Fields)
    → parse_input lib fs raw ≡ some out
    → parse_fields lib fs raw ≡ some out
unfolding parse_input
parsed_fields lib fs raw out = checked (only_declared lib fs raw)
  where
    checked :
        (b : Bool)
        → (if b then parse_fields lib fs raw else none) ≡ some out
        → parse_fields lib fs raw ≡ some out
    checked true h = h
    checked false h = absurd (cc h)

executed_ticket :
    (lib : Libraries) (args : Fields)
    → get "dry_run" args ≡ some (bool false)
    → (out : Fields) × (create_ticket lib args ≡ returned out)
      × (get "executed" out ≡ some (bool true))
unfolding create_ticket get
executed_ticket lib args h = (
  _,
  refl,
  ap
      (λ (o : Option Json).
        some (bool (not (truthy (elim o as (λ _. Json) [ none ↦ bool false | some j ↦ j ])))))
      h,
)

-- A ticket.create whose raw dry_run is missing or truthy passes the gate of a write without an
-- approval and without a key; where the input model reads dry_run as false all the same, as it does
-- for a missing one, the handler is given no dry run and answers that it executed the write.
pub ticket_unapproved :
    (lib : Libraries) (c : Call) (s : McpServer) (parsed : Fields)
    → is_dry_run c ≡ true
    → parse_input lib ticket_create_input c.raw_args ≡ some parsed
    → parse_field lib ticket_dry_run c.raw_args ≡ some (bool false)
    → (gate_write c s ≡ (returned tt, s))
      × ((out : Fields) × (create_ticket lib (put "tenant_id" (str c.auth.tenant_id) parsed)
            ≡ returned out)
          × (get "executed" out ≡ some (bool true)))
unfolding gate_write raise_if ◌>>◌ ◌>>=◌
ticket_unapproved lib c s parsed dry valid slips = (
  rw dry,
  executed_ticket lib _ (
      get-put_other "tenant_id" "dry_run" _ parsed refl
      ∙ get-parse_fields lib "dry_run" ticket_dry_run ticket_create_input c.raw_args parsed
          (unfold find_field in refl) (parsed_fields lib _ _ parsed valid)
      ∙ slips),
)
