-- ===== src/Base/Json.antt =====
-- The values that travel between the program's parts: JSON, with Python's dict lookups. A number
-- is in hundredths. `other` is an object that `json` does not know, with its `str`.
use Prim.Native.Nat.{ℕ, suc}
use Prim.Native.String.{String}
use mathlib.Core.Path.{◌≡◌, refl}
use mathlib.Core.Bool.{Bool, true, false, not}
use mathlib.Core.Option.{Option, none, some}
use mathlib.Core.List.{List, [], ◌∷◌}
use agent_workbench.Base.Tests.{◌==◌, string_eq, number_eq, if◌then◌else◌}
use agent_workbench.Base.Int.{ℤ, pos, negsuc}

mutual
  pub data Json : Type 0 where
    null : Json
    bool : Bool → Json
    num : ℤ → Json
    str : String → Json
    arr : Items → Json
    obj : Fields → Json
    other : String → Json

  pub data Items : Type 0 where
    nil : Items
    cons : Json → Items → Items

  pub data Fields : Type 0 where
    end : Fields
    field : String → Json → Fields → Fields

-- `d.get(k)`, with `none` for a missing key.
unfoldable pub get : String → Fields → Option Json
get k end = none
get k (field j v fs) = if k == j then some v else get k fs

-- `d[k] = v`, at the key's place or at the end.
unfoldable pub put : String → Json → Fields → Fields
put k v end = field k v end
put k v (field j w fs) = if k == j then field k v fs else field j w (put k v fs)

-- `{**d, **e}`
unfoldable pub merge : Fields → Fields → Fields
unfolding put
merge d end = d
merge d (field k v e) = merge (put k v d) e

-- `len(d)`
abbrev pub key_count : Fields → ℕ
key_count end = 0
key_count (field k v fs) = suc (key_count fs)

abbrev pub items : List Json → Items
items [] = nil
items (j ∷ js) = cons j (items js)

abbrev pub to_list : Items → List Json
to_list nil = []
to_list (cons j js) = j ∷ to_list js

abbrev pub texts : List String → Items
texts [] = nil
texts (s ∷ ss) = cons (str s) (texts ss)

-- `bool(x)`
abbrev pub truthy : Json → Bool
truthy null = false
truthy (bool b) = b
truthy (num (pos n)) = not (n == 0)
truthy (num (negsuc n)) = true
truthy (str s) = not (s == "")
truthy (arr nil) = false
truthy (arr (cons j js)) = true
truthy (obj end) = false
truthy (obj (field k v fs)) = true
truthy (other s) = true

abbrev pub truthy_option : Option Json → Bool
truthy_option none = false
truthy_option (some j) = truthy j

abbrev pub optional_text : Option String → Json
optional_text none = null
optional_text (some s) = str s

-- `json.loads(json.dumps(x, default=str))`: an unknown object becomes its text.
unfoldable mutual
  pub jsonable : Json → Json
  jsonable null = null
  jsonable (bool b) = bool b
  jsonable (num z) = num z
  jsonable (str s) = str s
  jsonable (arr xs) = arr (jsonable_items xs)
  jsonable (obj fs) = obj (jsonable_fields fs)
  jsonable (other s) = str s

  pub jsonable_items : Items → Items
  jsonable_items nil = nil
  jsonable_items (cons j js) = cons (jsonable j) (jsonable_items js)

  pub jsonable_fields : Fields → Fields
  jsonable_fields end = end
  jsonable_fields (field k v fs) = field k (jsonable v) (jsonable_fields fs)

get-put_example : get "a" (put "a" null (field "b" null (field "a" (bool true) end))) ≡ some null
unfolding get put
get-put_example = refl
