-- ===== src/Mcp/Redaction.antt =====
-- apps/mcp_server/redact.py, and the `safe_for_ui` gate of packages/security/redaction.py. Keys in
-- letters beyond ASCII are compared as they are.
pub mod Keys
use agent_workbench.Base.{
  ℕ, String, ◌<>◌, Bool, true, false, not, ◌&&◌, List, [], ◌∷◌, ltb, nat_eq, any, codes, lower,
  if◌then◌else◌,
}
use agent_workbench.Base.Json.{
  Json, null, bool, num, str, arr, obj, other, Items, nil, cons, Fields, end, field, get,
  truthy_option,
}
use agent_workbench.Mcp.Libraries.{Libraries, bearer, pem, ssn, credit_card, email, phone}

-- `SENSITIVE_KEYS`
unfoldable pub sensitive_keys : List String
sensitive_keys =
    "password" ∷ "passwd" ∷ "secret" ∷ "client_secret" ∷ "api_key" ∷ "apikey" ∷ "token"
    ∷ "access_token" ∷ "refresh_token" ∷ "id_token" ∷ "authorization" ∷ "bearer" ∷ "cookie"
    ∷ "set-cookie" ∷ "private_key" ∷ "connection_string" ∷ "ssn" ∷ "social_security"
    ∷ "social_security_number" ∷ "credit_card" ∷ "creditcard" ∷ "card_number" ∷ "cc_number" ∷ "cc"
    ∷ "email" ∷ "email_address" ∷ "phone" ∷ "phone_number" ∷ "mobile" ∷ []

abbrev pub redacted_text : String
redacted_text = "[REDACTED]"

-- Equality of texts as code points.
unfoldable pub same_codes : List ℕ → List ℕ → Bool
same_codes [] [] = true
same_codes [] (d ∷ ds) = false
same_codes (c ∷ cs) [] = false
same_codes (c ∷ cs) (d ∷ ds) = nat_eq c d && same_codes cs ds

-- `str(k).lower() in SENSITIVE_KEYS`
unfoldable pub is_sensitive : String → Bool
unfolding same_codes sensitive_keys
is_sensitive k = any (λ w. same_codes (codes w) (lower (codes k))) sensitive_keys

-- `_redact_string`
unfoldable pub redact_string : Libraries → String → String
redact_string lib value =
    let v1 = lib.sub bearer ("Bearer " <> redacted_text) value in
    let v2 = lib.sub pem redacted_text v1 in
    let v3 = lib.sub ssn redacted_text v2 in
    let v4 = lib.sub credit_card redacted_text v3 in
    let v5 = lib.sub email redacted_text v4 in lib.sub phone redacted_text v5

-- `redact`
unfoldable mutual
  pub redact : Libraries → Json → Json
  redact lib null = null
  redact lib (bool b) = bool b
  redact lib (num z) = num z
  redact lib (str s) = str (redact_string lib s)
  redact lib (arr xs) = arr (redact_items lib xs)
  redact lib (obj fs) = obj (redact_fields lib fs)
  redact lib (other s) = other s

  pub redact_items : Libraries → Items → Items
  redact_items lib nil = nil
  redact_items lib (cons x xs) = cons (redact lib x) (redact_items lib xs)

  pub redact_fields : Libraries → Fields → Fields
  redact_fields lib end = end
  redact_fields lib (field k v fs) =
      field k (if is_sensitive k then str redacted_text else redact lib v) (redact_fields lib fs)

-- `sha256_hex`
unfoldable pub sha256_hex : Libraries → Json → String
sha256_hex lib payload = lib.sha256 (lib.dumps_canonical payload)

-- `output_too_large`
unfoldable pub output_too_large : Libraries → Json → ℕ → Bool
output_too_large lib payload limit = ltb limit (lib.dumps_length payload)

-- `OUTPUT_MAX_BYTES`
abbrev pub output_max_bytes : ℕ
output_max_bytes = 65536

-- What stands for a payload that is withheld: its hash.
abbrev hash_reference : Libraries → Json → String → Json
hash_reference lib payload hint = obj (
    field "redacted" (bool true)
      (field "output_hash" (str (sha256_hex lib payload)) (field "hint" (str hint) end)))

-- `redact_for_audit`, with the default limit
unfoldable pub redact_for_audit : Libraries → Json → Json
redact_for_audit lib payload =
    if output_too_large lib (redact lib payload) output_max_bytes
    then hash_reference lib (redact lib payload)
        "output_too_large: truncated to hash reference (limit 65536B)"
    else redact lib payload

-- `safe_for_ui`
unfoldable pub safe_for_ui : Libraries → Fields → Json
safe_for_ui lib payload =
    if truthy_option (get "sensitive" payload) && not (truthy_option (get "safe_for_ui" payload))
    then hash_reference lib (redact lib (obj payload))
        "sensitive payload withheld (safe_for_ui=false)"
    else redact lib (obj payload)
