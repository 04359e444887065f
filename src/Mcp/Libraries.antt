-- ===== src/Mcp/Libraries.antt =====
-- What the MCP server takes from libraries as it is: `re`, `json`, `hashlib`, and the conversions
-- that Pydantic makes for the declared type of a field.
use Prim.Native.Nat.{ℕ}
use Prim.Native.String.{String}
use mathlib.Core.Bool.{Bool}
use mathlib.Core.Option.{Option}
use agent_workbench.Base.{ℤ}
use agent_workbench.Base.Json.{Json, str, Fields}

-- The regular expressions of redact.py.
pub data Pattern : Type 0 where
  bearer pem ssn credit_card email phone : Pattern

pub record Libraries : Type 0 where
  -- `pattern.sub(replacement, text)`
  pub sub : Pattern → String → String → String
  -- `json.dumps(x, default=str, sort_keys=True, separators=(",", ":"))`
  pub dumps_canonical : Json → String
  -- `len(json.dumps(x, default=str))`
  pub dumps_length : Json → ℕ
  -- `hashlib.sha256(s.encode("utf-8")).hexdigest()`
  pub sha256 : String → String
  -- `str(x)` of a value that is no text
  pub show : Json → String
  -- the value of an `int` (in hundredths), `bool`, `AwareDatetime` (as its JSON text) or `dict[str, Any]` field
  pub int_value : Json → Option ℤ
  pub bool_value : Json → Option Bool
  pub datetime_value : Json → Option String
  pub dict_value : Json → Option Fields
  -- `e.errors()[0]["msg"]` of the ValidationError of a model, by its name
  pub first_error : String → Fields → String

-- `str(x)`
abbrev pub text_value : Libraries → Json → String
text_value lib (str s) = s
text_value lib j = lib.show j
