-- ===== src/Base/Text.antt =====
-- Texts as lists of code points, for the code that looks into them, and decimal numerals.
-- Lower case and white space are those of `str`; letters beyond ASCII are left as they are.
use Prim.Native.Nat.{ℕ, zero, suc, ◌+◌, ◌/◌, ◌%◌}
use Prim.Native.Char.{code}
use Prim.Native.String.{String, ◌++◌ as ◌<>◌}
use mathlib.Core.Path.{◌≡◌, refl}
use mathlib.Core.Bool.{Bool, true, false, ◌&&◌, ◌||◌}
use mathlib.Core.Option.{Option, none, some}
use mathlib.Core.List.{List, [], ◌∷◌, map}
use agent_workbench.Base.Tests.{ltb, leb, nat_eq, if◌then◌else◌}

abbrev pub codes : String → List ℕ
codes String.[] = []
codes (String.◌∷◌ c s) = code c ∷ codes s

abbrev pub lower_code : ℕ → ℕ
lower_code c = if leb b'A' c && leb c b'Z' then c + 32 else c

-- `s.lower()`
abbrev pub lower : List ℕ → List ℕ
lower = map lower_code

-- What follows a prefix, if the text has it.
abbrev pub strip_prefix : List ℕ → List ℕ → Option (List ℕ)
strip_prefix [] cs = some cs
strip_prefix (p ∷ ps) [] = none
strip_prefix (p ∷ ps) (c ∷ cs) = elim (nat_eq p c) [ true ↦ strip_prefix ps cs | false ↦ none ]

abbrev pub has_prefix : List ℕ → List ℕ → Bool
has_prefix p cs = elim (strip_prefix p cs) [ none ↦ false | some _ ↦ true ]

-- `re.search`: the test holds at some suffix.
unfoldable pub search_at : (List ℕ → Bool) → List ℕ → Bool
search_at test [] = test []
search_at test (c ∷ cs) = test (c ∷ cs) || search_at test cs

-- `needle in text`
unfoldable pub is_infix : List ℕ → List ℕ → Bool
unfolding search_at
is_infix needle = search_at (has_prefix needle)

-- `str.isspace` for one character, and `\s` of `re`.
unfoldable pub is_space : ℕ → Bool
is_space c =
    (leb 9 c && leb c 13)
    || (leb 28 c && leb c 32)
    || nat_eq c 0x85
    || nat_eq c 0xA0
    || nat_eq c 0x1680
    || (leb 0x2000 c && leb c 0x200A)
    || nat_eq c 0x2028
    || nat_eq c 0x2029
    || nat_eq c 0x202F
    || nat_eq c 0x205F
    || nat_eq c 0x3000

unfoldable pub skip_spaces : List ℕ → List ℕ
skip_spaces [] = []
skip_spaces (c ∷ cs) = let rest = skip_spaces cs in if is_space c then rest else c ∷ cs

-- `not s.strip()`
unfoldable pub is_blank : String → Bool
unfolding is_space
is_blank String.[] = true
is_blank (String.◌∷◌ c s) = is_space (code c) && is_blank s

abbrev digit : ℕ → String
digit d =
    if nat_eq d 0
    then "0"
    else if nat_eq d 1
    then "1"
    else if nat_eq d 2
    then "2"
    else if nat_eq d 3
    then "3"
    else if nat_eq d 4
    then "4"
    else if nat_eq d 5
    then "5"
    else if nat_eq d 6
    then "6"
    else if nat_eq d 7
    then "7"
    else if nat_eq d 8
    then "8"
    else "9"

digits_onto : ℕ → ℕ → String → String
digits_onto zero n tail = tail
digits_onto (suc fuel) n tail =
    let rest = digits_onto fuel (n / 10) (digit (n % 10) <> tail) in
    if ltb n 10 then digit n <> tail else rest

-- `str(n)`; a number has no more digits than its value plus one, which is the fuel.
unfoldable pub decimal : ℕ → String
unfolding digits_onto
decimal n = digits_onto (suc n) n ""

decimal_507 : decimal 507 ≡ "507"
unfolding decimal
decimal_507 = refl
