-- ===== src/Runtime/Retry/Bounds.antt =====
-- How often call_with_retry tries, and how long it waits.
use agent_workbench.Base.{
  ℕ, zero, suc, ◌+◌, ◌*◌, ◌^◌, ◌≤◌, Bool, not, ◌||◌, [], ◌∷◌, All, arith, if◌then◌else◌,
}
use agent_workbench.Base.Action.{Action, Result, returned, raised, modify}
use agent_workbench.Base.Keeps.{
  Leads, Keeps, Keeps-gets, Keeps-raise, Keeps-raise_if, Keeps-bind, Keeps-weaken, Leads-then,
  Leads-handle, Leads-if,
}
use agent_workbench.Runtime.Errors.{RuntimeExn, is_retryable}
use agent_workbench.Runtime.Retry.{
  Retrying, RetryPolicy, min, backoff, as_model_timeout, is_cancelled, try_once, check_cancelled,
  attempts, call_with_retry,
}

min-le : (a b : ℕ) → min a b ≤ b
min-le a b = ground arith

module _ {W A : Type 0} (p : RetryPolicy) (cancelled : W → Bool) (fn : Action W RuntimeExn A) where
  -- At most so many tries, and no wait above the cap.
  pub record Bounded (n : ℕ) (s : Retrying W) : Type 0 where
    pub tries_bounded : s.tries ≤ n
    pub waits_bounded : All (λ w. w ≤ p.cap_backoff) s.waits

  weaken : (m n : ℕ) → m ≤ n → (s : Retrying W) → Bounded m s → Bounded n s
  weaken m n h s b = record {
    tries_bounded = omega (arith, b.tries_bounded);
    waits_bounded = b.waits_bounded;
  }

  tried :
      (n : ℕ) (r : Result RuntimeExn A) (t : Retrying W)
      → Bounded n t
      → Bounded n
          (elim r as (λ _. Result RuntimeExn A × Retrying W) [
            | returned a ↦ (returned a, t)
            | raised e ↦ (raised (as_model_timeout e), t)
          ]).1
  tried n (returned a) t h = h
  tried n (raised e) t h = h

  try_once-Bounded : (n : ℕ) → Leads (Bounded n) (Bounded (n + 1)) (try_once fn)
  unfolding try_once
  try_once-Bounded n = record {
    at = λ s h. tried (n + 1) (fn s.world).0 _ (record {
      tries_bounded = omega (arith, h.tries_bounded);
      waits_bounded = h.waits_bounded;
    });
  }

  check_cancelled-Bounded : (n : ℕ) → Keeps (Bounded n) (check_cancelled cancelled)
  unfolding check_cancelled
  check_cancelled-Bounded n = Keeps-bind _ _ (Keeps-gets _) (λ stop. Keeps-raise_if stop _)

  waited :
      (n i : ℕ)
      → Keeps
          (Bounded n)
          (modify {E = RuntimeExn} (λ (s : Retrying W). record s { waits = backoff p i ∷ s.waits }))
  unfolding modify backoff
  waited n i = record {
    at = λ s h. record {
      tries_bounded = h.tries_bounded;
      waits_bounded = (min-le (p.base_backoff * 2 ^ i) p.cap_backoff, h.waits_bounded);
    };
  }

  attempts-Bounded :
      (left i n m : ℕ)
      → n + left + 1 ≤ m
      → Leads (Bounded n) (Bounded m) (attempts p cancelled fn left i)
  unfolding attempts
  attempts-Bounded zero i n m h =
      Leads-then _ _ (weaken n m (omega (arith, h))) (check_cancelled-Bounded n)
        (record { at = λ s b. weaken (n + 1) m (omega (arith, h)) _ ((try_once-Bounded n).at s b) })
  attempts-Bounded (suc left) i n m h =
      let later : n + 1 ≤ m = omega (arith, h) in
      Leads-then _ _ (weaken n m (omega (arith, h))) (check_cancelled-Bounded n) (
        Leads-handle _ _ (weaken (n + 1) m later) (try_once-Bounded n) (λ e.
          Leads-if (is_cancelled e || p.is_write || not (is_retryable e)) _ _
            (λ stop. Keeps-weaken _ (weaken (n + 1) m later) (Keeps-raise e))
            (λ more.
              Leads-then _ _ (weaken (n + 1) m later) (waited (n + 1) i)
                (attempts-Bounded left (i + 1) (n + 1) m (omega (arith, h))))))

-- call_with_retry tries once and then at most max_retries times more, and only once for a write;
-- and none of its waits is above the cap. This holds whatever the call does, and however it ends.
pub call_with_retry-Bounded :
    {W A : Type 0} (p : RetryPolicy) (cancelled : W → Bool) (fn : Action W RuntimeExn A) (w : W)
    → let s = (call_with_retry p cancelled fn (record { world = w; tries = 0; waits = [] })).1 in
      (s.tries ≤ 1 + (if p.is_write then 0 else p.max_retries))
      × All (λ t. t ≤ p.cap_backoff) s.waits
unfolding call_with_retry
call_with_retry-Bounded p cancelled fn w =
    let left = if p.is_write then 0 else p.max_retries in
    let b =
      (attempts-Bounded p cancelled fn left 0 0 (1 + left) (omega arith)).at
        (record { world = w; tries = 0; waits = [] })
        (record { tries_bounded = omega arith; waits_bounded = tt }) in
    (b.tries_bounded, b.waits_bounded)
