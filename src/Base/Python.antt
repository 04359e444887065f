-- ===== src/Base/Python.antt =====
-- What the program takes from the Python runtime and its standard library as it is: the text of a
-- value that is no text, float parsing, the size of a JSON dump and SHA-256.
use Prim.Native.Nat.{ℕ}
use Prim.Native.String.{String}
use mathlib.Core.Bool.{true, false}
use mathlib.Core.Option.{Option, none, some}
use agent_workbench.Base.Int.{ℤ, pos}
use agent_workbench.Base.Json.{Json, bool, num, str, Fields, get}

pub record Python : Type 0 where
  -- `str(x)` of a value that is no text
  pub show : Json → String
  -- `float(s)` in hundredths; `none` for ValueError
  pub parse_float : String → Option ℤ
  -- `len(json.dumps(x, default=str))`
  pub dumps_length : Json → ℕ
  -- `hashlib.sha256(s.encode()).hexdigest()`
  pub sha256_hex : String → String
  -- `repr(sorted(d.items(), key=…))`
  pub repr_sorted : Fields → String

-- `str(x)`
abbrev pub text_of : Python → Json → String
text_of py (str s) = s
text_of py j = py.show j

-- `str(d.get(key, default))`
unfoldable pub get_text : Python → Fields → String → String → String
get_text py d key default = elim (get key d) [ none ↦ default | some j ↦ text_of py j ]

-- `float(x)`; `none` for TypeError and ValueError
abbrev pub float_of : Python → Json → Option ℤ
float_of py (num z) = some z
float_of py (bool true) = some (pos 100)
float_of py (bool false) = some (pos 0)
float_of py (str s) = py.parse_float s
float_of py _ = none
