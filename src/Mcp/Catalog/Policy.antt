-- ===== src/Mcp/Catalog/Policy.antt =====
-- What every entry that the catalog finds satisfies.
use agent_workbench.Base.{
  String, ◌≡◌, refl, subst, Bool, true, false, Option, some, [], ◌∷◌, ◌==◌, string_eq,
  if◌then◌else◌, ◌&&◌, eq_iff, and_left, and_right,
}
use agent_workbench.Base.Dict.{Dict, lookup}
use agent_workbench.Mcp.Catalog.{
  ToolMetadata, tool_metadata, catalog_get, category_policy, is_write_tool, is_write_category,
}

-- An entry under its own name, that keeps the category policy, and is a write exactly when
-- WRITE_TOOLS names its key.
abbrev pub is_consistent : String → ToolMetadata → Bool
is_consistent key m =
    m.name == key
    && (category_policy m
        && (if is_write_tool key
            then is_write_category m.category
            else (if is_write_category m.category then false else true)))

abbrev all_consistent : Dict ToolMetadata → Bool
all_consistent [] = true
all_consistent ((key, m) ∷ entries) = is_consistent key m && all_consistent entries

found_first :
    (name : String) (b : Bool) (e m : ToolMetadata) (rest : Option ToolMetadata)
    → (b ≡ true → is_consistent name e ≡ true)
    → (rest ≡ some m → is_consistent name m ≡ true)
    → (if b then some e else rest) ≡ some m
    → is_consistent name m ≡ true
found_first name true e m rest here later found =
    subst (λ x. is_consistent name x ≡ true) (cc found) (here refl)
found_first name false e m rest here later found = later found

lookup-is_consistent :
    (name : String) (entries : Dict ToolMetadata) (m : ToolMetadata)
    → all_consistent entries ≡ true
    → lookup name entries ≡ some m
    → is_consistent name m ≡ true
unfolding lookup
lookup-is_consistent name [] m ok found = absurd (cc found)
lookup-is_consistent name ((key, e) ∷ entries) m ok found =
    found_first name (key == name) e m (lookup name entries)
      (λ same.
        subst (λ k. is_consistent k e ≡ true) ((eq_iff key name).0 same)
          (and_left (is_consistent key e) (all_consistent entries) ok))
      (lookup-is_consistent name entries m
        (and_right (is_consistent key e) (all_consistent entries) ok))
      found

catalog-consistent : all_consistent tool_metadata ≡ true
unfolding tool_metadata category_policy is_write_tool
catalog-consistent = refl

same_tests : (a b : Bool) → (if a then b else (if b then false else true)) ≡ true → a ≡ b
same_tests true true h = refl
same_tests true false h = absurd (cc h)
same_tests false true h = absurd (cc h)
same_tests false false h = refl

-- Every tool that the catalog finds under a name carries that name itself, keeps the category policy
-- of its contract (a write needs an approval, a read has no side effect), and is in the write
-- category exactly when WRITE_TOOLS has the name.
pub catalog_get-is_consistent :
    (name : String) (m : ToolMetadata)
    → catalog_get name ≡ some m
    → (m.name ≡ name)
      × (category_policy m ≡ true)
      × (is_write_tool name ≡ is_write_category m.category)
unfolding catalog_get
catalog_get-is_consistent name m found =
    let ok = lookup-is_consistent name tool_metadata m catalog-consistent found in
    (
      (eq_iff m.name name).0 (and_left (m.name == name) _ ok),
      and_left (category_policy m) _ (and_right (m.name == name) _ ok),
      same_tests (is_write_tool name) (is_write_category m.category)
          (and_right (category_policy m) _ (and_right (m.name == name) _ ok)),
    )
