-- ===== src/Contracts/Fields.antt =====
-- The field constraints that the contract models share: lengths and patterns.
use Prim.Native.Char.{code}
use agent_workbench.Base.{
  ℕ, String, Bool, true, ◌&&◌, ◌||◌, Option, none, some, leb, nat_eq, text_length,
}

-- `[A-Za-z0-9._-]`
abbrev pub is_id_code : ℕ → Bool
is_id_code c =
    (leb b'a' c && leb c b'z')
    || (leb b'A' c && leb c b'Z')
    || (leb b'0' c && leb c b'9')
    || nat_eq c b'.'
    || nat_eq c b'_'
    || nat_eq c b'-'

unfoldable pub is_id_text : String → Bool
is_id_text String.[] = true
is_id_text (String.◌∷◌ c s) = is_id_code (code c) && is_id_text s

abbrev pub within : ℕ → ℕ → String → Bool
within low high s = leb low (text_length s) && leb (text_length s) high

-- min_length=1, max_length=128, pattern ^[A-Za-z0-9._-]+$
unfoldable pub is_id : String → Bool
unfolding is_id_text
is_id s = within 1 128 s && is_id_text s

-- An optional text of at most so many characters.
abbrev pub optional_within : ℕ → Option String → Bool
optional_within high none = true
optional_within high (some s) = leb (text_length s) high
