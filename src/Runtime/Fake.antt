-- ===== src/Runtime/Fake.antt =====
-- FakeRuntime of apps/orchestrator/runtime.py, the model that local runs use. Its latency is left
-- out; a fake token costs a micro-USD. The answers of the fake are valid by construction.
use agent_workbench.Base.{
  ℕ, ◌+◌, ◌*◌, ◌/◌, ◌%◌, String, ◌<>◌, Bool, List, [], ◌∷◌, ◌++◌, any, codes, lower, is_infix, leb,
  ltb, nat_eq, text_length, text_take, if◌then◌else◌, pos,
}
use agent_workbench.Base.Action.{pure, raise_if, ◌>>=◌, ◌>>◌}
use agent_workbench.Base.Python.{Python}
use agent_workbench.Runtime.Budget.{Ledger, record_model, check}
use agent_workbench.Runtime.Errors.{cancelled_error}

-- The confidence is in hundredths.
pub record Classification : Type 0 where
  pub category : String
  pub confidence : ℕ
  pub reasoning : String

pub record Plan : Type 0 where
  pub steps : List String
  pub risks : List String

abbrev pub max : ℕ → ℕ → ℕ
max a b = if ltb a b then b else a

-- `max(1, len(text) // 4)`
abbrev pub tokens_of : String → ℕ
tokens_of text = max 1 (text_length text / 4)

abbrev mentions : List String → List ℕ → Bool
mentions words text = any (λ w. is_infix (codes w) text) words

abbrev hex_digit : ℕ → ℕ
hex_digit c = if leb c b'9' then c % 48 else (c + 9) % 16

-- `int(seed[:2], 16)` of a text in hexadecimal
abbrev leading_byte : List ℕ → ℕ
leading_byte [] = 0
leading_byte (c ∷ []) = hex_digit c
leading_byte (c ∷ d ∷ cs) = 16 * hex_digit c + hex_digit d

module _ (py : Python) (cancelled : Bool) where
  -- `_tick`
  unfoldable pub tick : String → Ledger (Unit {0})
  tick text = do
    raise_if cancelled cancelled_error
    snap ← record_model (pos (tokens_of text)) (pos (tokens_of text / 2 + 1)) (pos (tokens_of text))
    check

  unfoldable pub category_of : List ℕ → String × ℕ
  category_of low =
      if mentions ("error" ∷ "latency" ∷ "outage" ∷ "incident" ∷ "alert" ∷ []) low
      then ("incident", 90)
      else if mentions ("deploy" ∷ "release" ∷ "rollback" ∷ "change" ∷ []) low
      then ("change-risk", 85)
      else if mentions ("cost" ∷ "spend" ∷ "billing" ∷ []) low
      then ("cost", 70)
      else ("general", 60)

  -- `classify`
  unfoldable pub classify : String → Ledger Classification
  classify objective =
      tick objective
      >> pure (record {
        category = (category_of (lower (codes objective))).0;
        confidence = (category_of (lower (codes objective))).1;
        reasoning = "fake classification (seed=" <> text_take 8 (py.sha256_hex objective) <> ")";
      })

  -- `plan`
  unfoldable pub plan : String → Ledger Plan
  plan objective =
      tick objective
      >> pure (record {
        steps =
            ("retrieve context (services, runbooks)" ∷ "read-only diagnostics (metrics/logs/traces)"
              ∷ "delegate to specialist (observability) if needed"
              ∷ "correlate evidence and draft findings" ∷ [])
            ++ (if nat_eq (leading_byte (codes (py.sha256_hex objective)) % 2) 0
                then "prepare change-review with rollback" ∷ []
                else []);
        risks = "incomplete telemetry" ∷ "conflicting evidence" ∷ [];
      })

  -- `summarize`
  unfoldable pub summarize : String → Ledger String
  summarize text = tick text >> pure (text_take 500 text)
