-- ===== src/Security/RateLimiter/Window.antt =====
-- How many calls of a key the rate limiter lets through.
use native.Mathlib.Nat.{suc-mul, add-mul, zero-mul}
use agent_workbench.Base.{
  refl, sym, ap, ◌∙◌, subst, String, ℕ, suc, ◌+◌, ◌-◌, ◌*◌, ◌≤◌, ◌≡◌, Bool, true, false, some, List,
  [], ◌∷◌, ◌==◌, string_eq, eq_iff, arith, if◌then◌else◌, Bool-cases, inl, inr,
}
use agent_workbench.Base.Dict.{lookup, lookup-insert}
use agent_workbench.Security.RateLimiter.{
  Bucket, RateLimiter, refill, take_token, bucket_or_full, bucket_of, allow,
}

-- A call of `allow`
pub record Call : Type 0 where
  pub key : String
  pub now : ℕ

-- How many of the calls with the key are allowed, one call after the other.
unfoldable pub allowed_calls : String → RateLimiter → List Call → ℕ
allowed_calls key l [] = 0
allowed_calls key l (c ∷ calls) =
    let (allowed, after) = allow l c.key c.now in
    let rest = allowed_calls key after calls in
    if c.key == key then (if allowed then suc rest else rest) else rest

-- The times do not go back, from the one given on.
unfoldable pub Monotone : ℕ → List Call → Type 0
Monotone now [] = Unit {0}
Monotone now (c ∷ calls) = (now ≤ c.now) × Monotone c.now calls

-- The time of the last call
unfoldable pub last_time : ℕ → List Call → ℕ
last_time now [] = now
last_time now (c ∷ calls) = last_time c.now calls

now-last_time : (now : ℕ) (calls : List Call) → Monotone now calls → now ≤ last_time now calls
unfolding Monotone last_time
now-last_time now [] h = omega arith
now-last_time now (c ∷ calls) h = omega (arith, h.0, now-last_time c.now calls h.1)

-- One call: what it takes and what is left is no more than what was there and what was refilled.
take_token-le :
    (l : RateLimiter) (b : Bucket) (now : ℕ)
    → (if (take_token l b now).0 then l.unit else 0) + (take_token l b now).1.tokens
      ≤ b.tokens + (now - b.updated) * l.rate
unfolding take_token refill
take_token-le l b now = ground arith

-- Nor is it more than the capacity, however long the key was idle.
take_token-capacity :
    (l : RateLimiter) (b : Bucket) (now : ℕ)
    → (if (take_token l b now).0 then l.unit else 0) + (take_token l b now).1.tokens ≤ l.capacity
unfolding take_token refill
take_token-capacity l b now = ground arith

take_token-updated : (l : RateLimiter) (b : Bucket) (now : ℕ) → (take_token l b now).1.updated ≡ now
unfolding take_token
take_token-updated l b now = ground arith

one_more :
    (allowed : Bool) (n unit : ℕ)
    → (if allowed then suc n else n) * unit ≡ n * unit + (if allowed then unit else 0)
one_more true n unit = suc-mul n unit
one_more false n unit = omega arith

parts : (u t e : ℕ) → u ≤ t → t ≤ e → e - u ≡ (t - u) + (e - t)
parts u t e ut te = omega (arith, ut, te)

elapsed_split : (u t e rate : ℕ) → u ≤ t → t ≤ e → (e - u) * rate ≡ (t - u) * rate + (e - t) * rate
elapsed_split u t e rate ut te =
    ap (λ k. k * rate) (parts u t e ut te) ∙ add-mul (t - u) (e - t) rate

-- The key has the bucket, which was filled no later than the time.
abbrev Holds : String → Bucket → ℕ → RateLimiter → Type 0
Holds key b now l = (lookup key l.buckets ≡ some b) × (b.updated ≤ now)

stored-Holds :
    (key : String) (l : RateLimiter) (now : ℕ)
    → Holds key (take_token l (bucket_of l key now) now).1 now (allow l key now).1
unfolding allow
stored-Holds key l now =
    let b = (take_token l (bucket_of l key now) now).1 in
    (
      lookup-insert key key b l.buckets
          ∙ ap (λ t. if t then some b else lookup key l.buckets) ((eq_iff key key).1 refl),
      subst (λ t. t ≤ now) (sym (take_token-updated l (bucket_of l key now) now)) (omega arith),
    )

other-Holds :
    (key other : String) (b : Bucket) (now then_ : ℕ) (l : RateLimiter)
    → (other == key) ≡ false
    → now ≤ then_
    → Holds key b now l
    → Holds key b then_ (allow l other then_).1
unfolding allow
other-Holds key other b now then_ l apart later h = (
  lookup-insert other key (take_token l (bucket_of l other then_) then_).1 l.buckets
      ∙ (ap
            (λ t.
              if t
              then some (take_token l (bucket_of l other then_) then_).1
              else lookup key l.buckets)
            apart
          ∙ h.0),
  omega (arith, h.1, later),
)

bucket_of-Holds :
    (key : String) (b : Bucket) (l : RateLimiter) (now : ℕ)
    → lookup key l.buckets ≡ some b
    → bucket_of l key now ≡ b
bucket_of-Holds key b l now h = ap (λ o. bucket_or_full l now o) h

abbrev took : String → RateLimiter → ℕ → Bool × Bucket
took key l now = take_token l (bucket_of l key now) now

count_own :
    (key : String) (l : RateLimiter) (now : ℕ) (calls : List Call)
    → allowed_calls key l (record { key = key; now = now } ∷ calls) ≡ (
        if (took key l now).0
        then suc (allowed_calls key (allow l key now).1 calls)
        else allowed_calls key (allow l key now).1 calls)
unfolding allowed_calls allow
count_own key l now calls =
    ap
      (λ t.
        if t
        then (if (took key l now).0
            then suc (allowed_calls key (allow l key now).1 calls)
            else allowed_calls key (allow l key now).1 calls)
        else allowed_calls key (allow l key now).1 calls)
      ((eq_iff key key).1 refl)

count_other :
    (key : String) (l : RateLimiter) (c : Call) (calls : List Call)
    → (c.key == key) ≡ false
    → allowed_calls key l (c ∷ calls) ≡ allowed_calls key (allow l c.key c.now).1 calls
unfolding allowed_calls allow
count_other key l c calls apart =
    ap
      (λ t.
        if t
        then (if (took c.key l c.now).0
            then suc (allowed_calls key (allow l c.key c.now).1 calls)
            else allowed_calls key (allow l c.key c.now).1 calls)
        else allowed_calls key (allow l c.key c.now).1 calls)
      apart

-- The calls take no more than what the bucket holds and what is refilled.
abbrev Paid : String → RateLimiter → Bucket → ℕ → List Call → Type 0
Paid key l b now calls =
    allowed_calls key l calls * l.unit ≤ b.tokens + (last_time now calls - b.updated) * l.rate

-- What a call of the key and the later ones take, given the later ones
own_call :
    (key : String) (l : RateLimiter) (now : ℕ) (calls : List Call)
    → Paid key (allow l key now).1 (took key l now).1 now calls
    → allowed_calls key l (record { key = key; now = now } ∷ calls) * l.unit
      ≤ (if (took key l now).0 then l.unit else 0)
        + (took key l now).1.tokens
        + (last_time now calls - now) * l.rate
unfolding allow
own_call key l now calls later =
    let rest = allowed_calls key (allow l key now).1 calls in
    let later' =
      subst (λ k. rest * l.unit ≤ (took key l now).1.tokens + (last_time now calls - k) * l.rate)
        (take_token-updated l (bucket_of l key now) now) later in
    omega (
      arith,
      ap (λ n. n * l.unit) (count_own key l now calls),
      one_more (took key l now).0 rest l.unit,
      later',
    )

held_call :
    (key : String) (l : RateLimiter) (b : Bucket) (start now : ℕ) (calls : List Call)
    → Holds key b start l
    → start ≤ now
    → Monotone now calls
    → Paid key (allow l key now).1 (took key l now).1 now calls
    → allowed_calls key l (record { key = key; now = now } ∷ calls) * l.unit
      ≤ b.tokens + (last_time now calls - b.updated) * l.rate
held_call key l b start now calls h later mono rest = omega (
  arith,
  own_call key l now calls rest,
  subst
      (λ x.
        (if (take_token l x now).0 then l.unit else 0) + (take_token l x now).1.tokens
        ≤ b.tokens + (now - b.updated) * l.rate)
      (sym (bucket_of-Holds key b l now h.0)) (take_token-le l b now),
  elapsed_split b.updated now (last_time now calls) l.rate (omega (arith, h.1, later))
      (now-last_time now calls mono),
)

held_calls :
    (key : String) (l : RateLimiter) (b : Bucket) (start : ℕ) (calls : List Call)
    → Holds key b start l
    → Monotone start calls
    → Paid key l b start calls
unfolding allowed_calls Monotone last_time allow
held_calls key l b start [] h mono = omega (arith, zero-mul l.unit)
held_calls key l b start (c ∷ calls) h mono = elim (Bool-cases (c.key == key)) [
  | inl same ↦
      let own = held_call key l b start c.now calls h mono.0 mono.1 (
        held_calls key (allow l key c.now).1 (took key l c.now).1 c.now calls
          (stored-Holds key l c.now) mono.1) in
      subst
        (λ k.
          allowed_calls key l (record { key = k; now = c.now } ∷ calls) * l.unit
          ≤ b.tokens + (last_time c.now calls - b.updated) * l.rate)
        (sym ((eq_iff c.key key).0 same)) own
  | inr apart ↦
      subst (λ n. n * l.unit ≤ b.tokens + (last_time c.now calls - b.updated) * l.rate)
        (sym (count_other key l c calls apart))
        (held_calls key (allow l c.key c.now).1 b c.now calls
          (other-Holds key c.key b start c.now l apart mono.0 h) mono.1)
]

-- From a call of a key on, and on a clock that does not go back, the calls of the key that `allow`
-- lets through take no more than the capacity and what is refilled until the last call: from any
-- buckets, however long the key was idle, and with any calls of other keys in between.
pub allowed_calls-window :
    (key : String) (l : RateLimiter) (now : ℕ) (calls : List Call)
    → Monotone now calls
    → allowed_calls key l (record { key = key; now = now } ∷ calls) * l.unit
      ≤ l.capacity + (last_time now calls - now) * l.rate
allowed_calls-window key l now calls mono = omega (
  arith,
  own_call key l now calls (
      held_calls key (allow l key now).1 (took key l now).1 now calls (stored-Holds key l now)
        mono),
  take_token-capacity l (bucket_of l key now) now,
)
