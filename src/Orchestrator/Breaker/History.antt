-- ===== src/Orchestrator/Breaker/History.antt =====
-- The breaker refines a plain history: a circuit is open exactly when the last `threshold` calls of
-- its key, or more, all failed.
use agent_workbench.Base.{
  ℕ, ◌+◌, ◌≤◌, String, Bool, true, false, not, List, [], ◌∷◌, ◌==◌, string_eq, any, keep, leb, ◌≡◌,
  refl, if◌then◌else◌, arith, eq_iff,
}
use agent_workbench.Base.Dict.{lookup, lookup-insert}
use agent_workbench.Orchestrator.Breaker.{
  Breaker, new_breaker, is_open, failure_count, record_success, record_failure,
}

-- A call that was recorded: its key, and whether it succeeded.
pub record Call : Type 0 where
  pub key : String
  pub succeeded : Bool

unfoldable pub replay : Breaker → List Call → Breaker
replay b [] = b
replay b (call ∷ earlier) =
    let before = replay b earlier in
    if call.succeeded then record_success before call.key else record_failure before call.key

-- The failures of a key since its last success, the latest call first.
unfoldable pub trailing_failures : String → List Call → ℕ
trailing_failures key [] = 0
trailing_failures key (call ∷ earlier) =
    let rest = trailing_failures key earlier in
    if call.key == key then (if call.succeeded then 0 else rest + 1) else rest

any-keep :
    (j key : String) (xs : List String)
    → any (λ k. k == key) (keep (λ k. not (k == j)) xs)
      ≡ (if j == key then false else any (λ k. k == key) xs)
any-keep j key [] = ground (arith, eq_iff j key)
any-keep j key (x ∷ xs) = ground (arith, any-keep j key xs, eq_iff j key, eq_iff x j, eq_iff x key)

is_open-record_success :
    (b : Breaker) (j key : String)
    → is_open (record_success b j) key ≡ (if j == key then false else is_open b key)
unfolding is_open record_success
is_open-record_success b j key = any-keep j key b.opened

failure_count-record_success :
    (b : Breaker) (j key : String)
    → failure_count (record_success b j) key ≡ (if j == key then 0 else failure_count b key)
unfolding record_success
failure_count-record_success b j key = ground (arith, lookup-insert j key 0 b.failures)

failure_count-record_failure :
    (b : Breaker) (j key : String)
    → failure_count (record_failure b j) key
      ≡ (if j == key then failure_count b key + 1 else failure_count b key)
unfolding record_failure
failure_count-record_failure b j key =
    ground (arith, lookup-insert j key (failure_count b j + 1) b.failures, eq_iff j key)

is_open-record_failure :
    (b : Breaker) (j key : String)
    → is_open (record_failure b j) key ≡ (
        if j == key
        then (if leb b.threshold (failure_count b key + 1) then true else is_open b key)
        else is_open b key)
unfolding is_open record_failure
is_open-record_failure b j key = ground (arith, eq_iff j key)

threshold-replay : (b : Breaker) (calls : List Call) → (replay b calls).threshold ≡ b.threshold
unfolding replay record_success record_failure
threshold-replay b [] = refl
threshold-replay b (call ∷ earlier) = ground (arith, threshold-replay b earlier)

Counts : ℕ → List Call → String → Type 0
Counts threshold calls key =
    failure_count (replay (new_breaker threshold) calls) key ≡ trailing_failures key calls

replay-count : (threshold : ℕ) (calls : List Call) (key : String) → Counts threshold calls key
unfolding Counts replay trailing_failures new_breaker lookup
replay-count threshold [] key = refl
replay-count threshold (call ∷ earlier) key = ground (
  arith,
  replay-count threshold earlier key,
  failure_count-record_success (replay (new_breaker threshold) earlier) call.key key,
  failure_count-record_failure (replay (new_breaker threshold) earlier) call.key key,
)

is_open-new_breaker : (threshold : ℕ) (key : String) → is_open (new_breaker threshold) key ≡ false
unfolding is_open new_breaker
is_open-new_breaker threshold key = refl

threshold-new_breaker : (threshold : ℕ) → (new_breaker threshold).threshold ≡ threshold
unfolding new_breaker
threshold-new_breaker threshold = refl

-- After any calls, from the closed breaker, the circuit of a key is open exactly when the failures of
-- the key since its last success reach the threshold, which is not zero.
pub is_open-replay :
    (threshold : ℕ) (calls : List Call) (key : String)
    → 1 ≤ threshold
    → is_open (replay (new_breaker threshold) calls) key
      ≡ leb threshold (trailing_failures key calls)
unfolding replay trailing_failures Counts
is_open-replay threshold [] key positive = ground (arith, is_open-new_breaker threshold key)
is_open-replay threshold (call ∷ earlier) key positive =
    let before = replay (new_breaker threshold) earlier in
    ground (
      arith,
      is_open-replay threshold earlier key positive,
      replay-count threshold earlier key,
      threshold-new_breaker threshold,
      threshold-replay (new_breaker threshold) earlier,
      is_open-record_success before call.key key,
      is_open-record_failure before call.key key,
    )
