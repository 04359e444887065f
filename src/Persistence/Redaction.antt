-- ===== src/Persistence/Redaction.antt =====
-- `default_redact` of packages/persistence/repositories.py, the `_redact` of a repository that is
-- given no other. What its regular expressions match is a parameter.
use agent_workbench.Base.{
  String, ◌<>◌, Bool, not, ◌&&◌, ◌||◌, ◌==◌, string_eq, ltb, strip, text_length, if◌then◌else◌,
}
use agent_workbench.Base.Json.{
  Json, null, bool, num, str, arr, obj, other, Items, nil, cons, Fields, end, field,
}

pub record Patterns : Type 0 where
  -- `_SENSITIVE_KEY_RE.search`
  pub is_sensitive_path : String → Bool
  -- a search of one of `_SECRET_VALUE_RES`
  pub is_secret_value : String → Bool
  -- `re.fullmatch(r"[A-Za-z0-9\-_+/=]{64,}", …)`
  pub is_opaque : String → Bool

abbrev pub redacted_value : String
redacted_value = "***REDACTED***"

-- `f"{key_path}.{k}" if key_path else str(k)`
abbrev pub path_below : String → String → String
path_below key_path k = if key_path == "" then k else key_path <> "." <> k

-- `_redact_value` of a text
unfoldable pub redact_text : Patterns → String → String → String
redact_text p key_path value =
    if (not (key_path == "") && p.is_sensitive_path key_path)
      || (p.is_secret_value value || (ltb 64 (text_length value) && p.is_opaque (strip value)))
    then redacted_value
    else value

-- `_redact_value`
unfoldable mutual
  pub redact_value : Patterns → String → Json → Json
  redact_value p key_path null = null
  redact_value p key_path (bool b) = bool b
  redact_value p key_path (num z) = num z
  redact_value p key_path (str s) = str (redact_text p key_path s)
  redact_value p key_path (arr xs) = arr (redact_items p key_path xs)
  redact_value p key_path (obj fs) = obj (redact_fields p key_path fs)
  redact_value p key_path (other s) = other s

  pub redact_items : Patterns → String → Items → Items
  redact_items p key_path nil = nil
  redact_items p key_path (cons x xs) =
      cons (redact_value p key_path x) (redact_items p key_path xs)

  pub redact_fields : Patterns → String → Fields → Fields
  redact_fields p key_path end = end
  redact_fields p key_path (field k v fs) =
      field k (redact_value p (path_below key_path k) v) (redact_fields p key_path fs)

-- `default_redact` of a dict
unfoldable pub default_redact : Patterns → Fields → Fields
default_redact p = redact_fields p ""
