-- ===== src/Security/RateLimiter.antt =====
-- RateLimiter of packages/security/limits.py. Tokens are counted in parts, `unit` of them to a token,
-- so that `rate` parts are refilled per tick of the clock; the clock does not go back.
pub mod Window
use agent_workbench.Base.{
  ℕ, ◌+◌, ◌-◌, ◌*◌, String, Bool, true, false, Option, none, some, ltb, if◌then◌else◌,
}
use agent_workbench.Base.Dict.{Dict, lookup, insert}

pub record Bucket : Type 0 where
  pub tokens : ℕ
  pub updated : ℕ

pub record RateLimiter : Type 0 where
  -- in parts
  pub capacity : ℕ
  pub rate : ℕ
  pub unit : ℕ
  pub buckets : Dict Bucket

abbrev pub min : ℕ → ℕ → ℕ
min a b = if ltb b a then b else a

-- The bucket of a key, filled up to the time.
unfoldable pub refill : RateLimiter → Bucket → ℕ → ℕ
refill l b now = min l.capacity (b.tokens + (now - b.updated) * l.rate)

-- The decision on one bucket, and the bucket after it.
unfoldable pub take_token : RateLimiter → Bucket → ℕ → Bool × Bucket
unfolding refill
take_token l b now =
    if ltb (refill l b now) l.unit
    then (false, record { tokens = refill l b now; updated = now })
    else (true, record { tokens = refill l b now - l.unit; updated = now })

abbrev pub bucket_or_full : RateLimiter → ℕ → Option Bucket → Bucket
bucket_or_full l now none = record { tokens = l.capacity; updated = now }
bucket_or_full l now (some b) = b

-- The bucket of a key; a new one is full.
abbrev pub bucket_of : RateLimiter → String → ℕ → Bucket
bucket_of l key now = bucket_or_full l now (lookup key l.buckets)

-- `allow`
unfoldable pub allow : RateLimiter → String → ℕ → Bool × RateLimiter
unfolding take_token
allow l key now =
    let (allowed, b) = take_token l (bucket_of l key now) now in
    (allowed, record l { buckets = insert key b l.buckets })
