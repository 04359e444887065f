-- ===== src/Mcp/Redaction/Keys.antt =====
-- What redaction makes of a value, at every depth.
use agent_workbench.Base.{
  ℕ, ◌≡◌, refl, String, Bool, true, false, ◌||◌, ◌⊎◌, inl, inr, ◌↔◌, List, [], ◌∷◌, any, codes, ℤ,
  lower, arith, if◌then◌else◌,
}
use agent_workbench.Base.Json.{
  Json, null, bool, num, str, arr, obj, other, Items, nil, cons, Fields, end, field,
}
use agent_workbench.Mcp.Libraries.{Libraries, bearer, pem, ssn, credit_card, email, phone}
use agent_workbench.Mcp.Redaction.{
  sensitive_keys, redacted_text, same_codes, is_sensitive, redact_string, redact, redact_items,
  redact_fields,
}

-- Up to the case of its letters, the key is one of the words.
abbrev pub IsWord : List String → String → Type 0
IsWord [] k = ⊥
IsWord (w ∷ words) k = (codes w ≡ lower (codes k)) ⊎ IsWord words k

abbrev pub IsSecret : String → Type 0
IsSecret k = IsWord sensitive_keys k

-- A text with its secrets replaced: a bearer token, then a private key, a social security number, a
-- card number, an email address and a phone number.
abbrev pub Scrubbed : Libraries → String → String → Type 0
Scrubbed lib s t =
    t
    ≡ lib.sub phone "[REDACTED]" (
        lib.sub email "[REDACTED]" (
          lib.sub credit_card "[REDACTED]" (
            lib.sub ssn "[REDACTED]"
              (lib.sub pem "[REDACTED]" (lib.sub bearer "Bearer [REDACTED]" s)))))

-- How a value is related to its redacted form: the keys stay, the value under a secret key is
-- replaced, and below the other keys and in lists every text is scrubbed.
mutual
  pub data Redacts (lib : Libraries) : Json → Json → Type 0 where
    null_kept : Redacts lib null null
    bool_kept : (b : Bool) → Redacts lib (bool b) (bool b)
    number_kept : (z : ℤ) → Redacts lib (num z) (num z)
    text_scrubbed : (s t : String) → Scrubbed lib s t → Redacts lib (str s) (str t)
    list_redacted : {xs ys : Items} → RedactsItems lib xs ys → Redacts lib (arr xs) (arr ys)
    dict_redacted : {fs gs : Fields} → RedactsFields lib fs gs → Redacts lib (obj fs) (obj gs)
    other_kept : (s : String) → Redacts lib (other s) (other s)

  pub data RedactsItems (lib : Libraries) : Items → Items → Type 0 where
    no_items : RedactsItems lib nil nil
    item :
        {x y : Json} {xs ys : Items}
        → Redacts lib x y
        → RedactsItems lib xs ys
        → RedactsItems lib (cons x xs) (cons y ys)

  pub data RedactsFields (lib : Libraries) : Fields → Fields → Type 0 where
    no_fields : RedactsFields lib end end
    secret_field :
        {k : String} {v : Json} {fs gs : Fields}
        → IsSecret k
        → RedactsFields lib fs gs
        → RedactsFields lib (field k v fs) (field k (str "[REDACTED]") gs)
    open_field :
        {k : String} {v w : Json} {fs gs : Fields}
        → ¬ IsSecret k
        → Redacts lib v w
        → RedactsFields lib fs gs
        → RedactsFields lib (field k v fs) (field k w gs)

same_codes_iff : (cs ds : List ℕ) → (same_codes cs ds ≡ true) ↔ (cs ≡ ds)
unfolding same_codes
same_codes_iff [] [] = (λ h. refl, λ h. refl)
same_codes_iff [] (d ∷ ds) = (λ h. absurd (cc h), λ h. absurd (cc h))
same_codes_iff (c ∷ cs) [] = (λ h. absurd (cc h), λ h. absurd (cc h))
same_codes_iff (c ∷ cs) (d ∷ ds) =
    (λ h. ground (arith, same_codes_iff cs ds), λ h. ground (arith, same_codes_iff cs ds))

first_or_later :
    {P Q : Type 0} (a b : Bool) → (a ≡ true) ↔ P → (b ≡ true) ↔ Q → (a || b ≡ true) ↔ (P ⊎ Q)
first_or_later true b hp hq = (λ h. inl (hp.0 refl), λ h. refl)
first_or_later false b hp hq =
    (λ h. inr (hq.0 h), λ h. elim h [ inl p ↦ absurd (cc (hp.1 p)) | inr q ↦ hq.1 q ])

any-IsWord :
    (words : List String) (k : String)
    → (any (λ w. same_codes (codes w) (lower (codes k))) words ≡ true) ↔ IsWord words k
any-IsWord [] k = (λ h. absurd (cc h), λ h. absurd h)
any-IsWord (w ∷ words) k =
    first_or_later (same_codes (codes w) (lower (codes k)))
      (any (λ x. same_codes (codes x) (lower (codes k))) words)
      (same_codes_iff (codes w) (lower (codes k))) (any-IsWord words k)

is_sensitive-IsSecret : (k : String) → (is_sensitive k ≡ true) ↔ IsSecret k
unfolding is_sensitive
is_sensitive-IsSecret k = any-IsWord sensitive_keys k

field_redacted :
    (lib : Libraries) (b : Bool) (k : String) (v w : Json) (fs gs : Fields)
    → (b ≡ true) ↔ IsSecret k
    → Redacts lib v w
    → RedactsFields lib fs gs
    → RedactsFields lib (field k v fs) (field k (if b then str redacted_text else w) gs)
field_redacted lib true k v w fs gs known rv rest = secret_field (known.0 refl) rest
field_redacted lib false k v w fs gs known rv rest =
    open_field (λ secret. absurd (cc (known.1 secret))) rv rest

mutual
  unfolding redact redact_items redact_fields redact_string

  redacted : (lib : Libraries) (j : Json) → Redacts lib j (redact lib j)
  redacted lib null = null_kept
  redacted lib (bool b) = bool_kept b
  redacted lib (num z) = number_kept z
  redacted lib (str s) = text_scrubbed s _ refl
  redacted lib (arr xs) = list_redacted (redacted_items lib xs)
  redacted lib (obj fs) = dict_redacted (redacted_fields lib fs)
  redacted lib (other s) = other_kept s

  redacted_items : (lib : Libraries) (xs : Items) → RedactsItems lib xs (redact_items lib xs)
  redacted_items lib nil = no_items
  redacted_items lib (cons x xs) = item (redacted lib x) (redacted_items lib xs)

  redacted_fields : (lib : Libraries) (fs : Fields) → RedactsFields lib fs (redact_fields lib fs)
  redacted_fields lib end = no_fields
  redacted_fields lib (field k v fs) =
      field_redacted lib (is_sensitive k) k v (redact lib v) fs (redact_fields lib fs)
        (is_sensitive-IsSecret k) (redacted lib v) (redacted_fields lib fs)

-- At every depth, redact keeps the keys and the shape, replaces the value under a key that is one of
-- SENSITIVE_KEYS up to case by [REDACTED], and makes the six substitutions in every other text, in
-- their order.
pub redact-Redacts : (lib : Libraries) (j : Json) → Redacts lib j (redact lib j)
redact-Redacts = redacted
