-- ===== src/Orchestrator/Registry.antt =====
-- The tool allowlist of the graph, and the gate before any tool call: TOOL_REGISTRY,
-- validate_tool_call and build_proposed_action of apps/orchestrator/graph.py.
pub mod Gate
use agent_workbench.Base.{
  ℕ, ◌+◌, String, ◌<>◌, Bool, true, false, not, ◌&&◌, ◌||◌, Option, none, some, List, [], ◌∷◌, leb,
  ltb, nat_eq, ◌==◌, string_eq, codes, lower, has_prefix, strip_prefix, search_at, skip_spaces,
  is_space, is_empty, text_take, text_last, text_length, strip, is_blank, if◌then◌else◌, map,
}
use agent_workbench.Base.Action.{Result, returned, raised}
use agent_workbench.Base.Json.{obj, Fields, key_count}
use agent_workbench.Base.Python.{Python, text_of}
use agent_workbench.Contracts.Fields.{is_id, within, optional_within}
use agent_workbench.Mcp.Catalog.{ToolMetadata, catalog_get, is_write_category}
use agent_workbench.Orchestrator.Clients.{Exn, failure}
use agent_workbench.Orchestrator.State.{ProposedAction}

-- `[a-z0-9_]`
abbrev pub is_word : ℕ → Bool
is_word c = (leb b'a' c && leb c b'z') || (leb b'0' c && leb c b'9') || nat_eq c b'_'

-- After the dot; `$` also matches before a final line feed.
last_word : Bool → List ℕ → Bool
last_word seen [] = seen
last_word seen (c ∷ cs) =
    let rest = last_word true cs in if is_word c then rest else seen && nat_eq c 10 && is_empty cs

first_word : Bool → List ℕ → Bool
unfolding last_word
first_word seen [] = false
first_word seen (c ∷ cs) =
    let rest = first_word true cs in
    if is_word c then rest else seen && nat_eq c b'.' && last_word false cs

-- `TOOL_NAME_RE.match`: ^[a-z0-9_]+\.[a-z0-9_]+$
unfoldable pub matches_tool_name : String → Bool
unfolding first_word
matches_tool_name name = first_word false (codes name)

-- A word, then white space, then the rest of the pattern.
spaced : Bool → List ℕ → (List ℕ → Bool) → List ℕ → Bool
unfolding skip_spaces is_space
spaced needed word next cs = elim (strip_prefix word cs) [
  | none ↦ false
  | some rest ↦
      (if needed then (elim rest [ [] ↦ false | c ∷ _ ↦ is_space c ]) else true)
      && next (skip_spaces rest)
]

-- `cat\s`
cat_then_space : List ℕ → Bool
unfolding is_space
cat_then_space cs = elim (strip_prefix (codes "cat") cs) [
  | none ↦ false
  | some rest ↦ elim rest [ [] ↦ false | c ∷ _ ↦ is_space c ]
]

-- The alternatives of SHELL_HINT_RE at one place of a text in lower case.
hint_at : List ℕ → Bool
unfolding spaced cat_then_space
hint_at cs =
    spaced true (codes "rm") (has_prefix (codes "-rf")) cs
    || spaced false (codes ";") cat_then_space cs
    || has_prefix (codes "&&") cs
    || has_prefix (codes "||") cs
    || has_prefix (codes "`") cs
    || has_prefix (codes "$(") cs
    || spaced false (codes "exec") (has_prefix (codes "(")) cs

-- `SHELL_HINT_RE.search`
unfoldable pub has_shell_hint : String → Bool
unfolding hint_at search_at
has_shell_hint s = search_at hint_at (lower (codes s))

module _ (py : Python) where
  -- `validate_tool_call`
  unfoldable pub validate_tool_call : String → Fields → Result Exn ToolMetadata
  validate_tool_call tool_name args =
      if not (matches_tool_name tool_name)
      then raised (failure "ValueError" "tool_name is not an allowlisted tool (regex mismatch)")
      else if has_shell_hint tool_name || has_shell_hint (py.show (obj args))
      then raised (
          failure "ValueError"
            "refusing to execute model text as command: shell metacharacters detected")
      else elim (catalog_get tool_name) [
        | none ↦ raised (failure "ValueError" "tool is not in the allowlisted registry")
        | some spec ↦
            if ltb 32768 (py.dumps_length (obj args))
            then raised (failure "ValueError" "tool args exceed 32KB cap")
            else if ltb 50 (key_count args)
            then raised (failure "ValueError" "tool args exceed 50 keys")
            else returned spec
      ]

  -- The field constraints of the ProposedAction contract that a built action can break.
  action_is_accepted : String → String → ProposedAction → Bool
  action_is_accepted run_id tenant_id a =
      is_id a.action_id
      && within 1 128 (strip run_id)
      && within 1 128 (strip tenant_id)
      && within 1 2000 a.reason
      && optional_within 2000 a.rollback

  dashed : String → String
  dashed String.[] = ""
  dashed (String.◌∷◌ c s) =
      let rest = dashed s in
      if has_prefix (codes ".") (codes (String.◌∷◌ c "")) then "-" <> rest else String.◌∷◌ c rest

  -- `build_proposed_action`
  unfoldable pub build_proposed_action :
      String
      → String
      → String
      → String
      → Fields
      → String
      → Option String
      → Bool
      → Result Exn ProposedAction
  unfolding action_is_accepted dashed
  build_proposed_action run_id tenant_id tool_name reason tool_input risk rollback dry_run =
      elim (validate_tool_call tool_name tool_input) [
        | raised e ↦ raised e
        | returned spec ↦
            let key_src = run_id <> ":" <> tool_name <> ":" <> py.repr_sorted tool_input in
            let idem = "idem-" <> text_take 16 (py.sha256_hex key_src) in
            let is_risky = risk == "high" || risk == "critical" in
            let action : ProposedAction = record {
              action_id = strip (run_id <> "-" <> dashed tool_name <> "-" <> text_last 6 idem);
              tool_name = tool_name;
              reason = strip (text_take 2000 reason);
              input = tool_input;
              risk = risk;
              requires_approval =
                  spec.approval_required || is_write_category spec.category || is_risky;
              rollback = rollback;
              dry_run = dry_run;
              idempotency_key = idem;
            } in
            if action_is_accepted run_id tenant_id action
            then returned action
            else raised (failure "ValidationError" "ProposedAction")
      ]
