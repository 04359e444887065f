-- ===== src/Orchestrator/Breaker.antt =====
-- `CircuitBreaker` of apps/orchestrator/graph.py.
pub mod History
use agent_workbench.Base.{
  ℕ, ◌+◌, String, Bool, true, false, Option, none, some, List, [], ◌∷◌, ◌==◌, string_eq, any, keep,
  not, leb, if◌then◌else◌,
}
use agent_workbench.Base.Dict.{Dict, lookup, insert}

-- `opened` is a set: a list in which an order or a repetition tells nothing.
pub record Breaker : Type 0 where
  pub threshold : ℕ
  pub failures : Dict ℕ
  pub opened : List String

abbrev pub circuit_breaker_threshold : ℕ
circuit_breaker_threshold = 3

unfoldable pub new_breaker : ℕ → Breaker
new_breaker threshold = record { threshold = threshold; failures = []; opened = [] }

-- `guard`: whether it raises `CircuitOpenError`.
unfoldable pub is_open : Breaker → String → Bool
is_open b key = any (λ k. k == key) b.opened

abbrev pub failure_count : Breaker → String → ℕ
failure_count b key = elim (lookup key b.failures) [ none ↦ 0 | some n ↦ n ]

unfoldable pub record_success : Breaker → String → Breaker
record_success b key = record b {
  failures = insert key 0 b.failures;
  opened = keep (λ k. not (k == key)) b.opened;
}

unfoldable pub record_failure : Breaker → String → Breaker
record_failure b key =
    let n = failure_count b key + 1 in
    record b {
      failures = insert key n b.failures;
      opened = if leb b.threshold n then key ∷ b.opened else b.opened;
    }
