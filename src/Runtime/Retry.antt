-- ===== src/Runtime/Retry.antt =====
-- call_with_retry of apps/orchestrator/runtime.py. A try of the call is an action on the caller's
-- world, which raises timeout_error where its time is over; times are in milliseconds.
pub mod Bounds
pub mod Recovery
use agent_workbench.Base.{
  ℕ, zero, suc, ◌+◌, ◌*◌, ◌^◌, String, Bool, true, false, not, ◌||◌, List, [], ◌∷◌, ltb,
  if◌then◌else◌,
}
use agent_workbench.Base.Action.{
  Action, returned, raised, pure, raise, gets, catch, modify, raise_if, ◌>>=◌, ◌>>◌,
}
use agent_workbench.Runtime.Errors.{
  RuntimeExn, timeout_error, cancelled_error, model_timeout_error, is_retryable,
}

-- The caller's world, with the number of tries and the waits between them, the latest first.
pub record Retrying (W : Type 0) : Type 0 where
  pub world : W
  pub tries : ℕ
  pub waits : List ℕ

pub record RetryPolicy : Type 0 where
  pub max_retries : ℕ
  pub is_write : Bool
  pub base_backoff : ℕ
  pub cap_backoff : ℕ

abbrev pub min : ℕ → ℕ → ℕ
min a b = if ltb b a then b else a

-- `min(base_backoff_s * (2**attempt), cap_backoff_s)`
unfoldable pub backoff : RetryPolicy → ℕ → ℕ
backoff p attempt = min (p.base_backoff * 2 ^ attempt) p.cap_backoff

-- `except TimeoutError as e: raise ModelTimeoutError() from e`
abbrev pub as_model_timeout : RuntimeExn → RuntimeExn
as_model_timeout timeout_error = model_timeout_error
as_model_timeout e = e

abbrev pub is_cancelled : RuntimeExn → Bool
is_cancelled cancelled_error = true
is_cancelled _ = false

-- `check_cancelled`
unfoldable pub check_cancelled :
    {W : Type 0} → (W → Bool) → Action (Retrying W) RuntimeExn (Unit {0})
check_cancelled cancelled = do stop ← gets (λ s. cancelled s.world); raise_if stop cancelled_error

module _ {W A : Type 0} where
  -- `run_with_timeout(fn(), timeout_s)`
  unfoldable pub try_once : Action W RuntimeExn A → Action (Retrying W) RuntimeExn A
  try_once fn s =
      let (r, w) = fn s.world in
      let t : Retrying W = record s { world = w; tries = s.tries + 1 } in
      elim r [ returned a ↦ (returned a, t) | raised e ↦ (raised (as_model_timeout e), t) ]

  -- The loop, with the number of tries left after this one.
  unfoldable pub attempts :
      RetryPolicy → (W → Bool) → Action W RuntimeExn A → ℕ → ℕ → Action (Retrying W) RuntimeExn A
  attempts p cancelled fn zero i = check_cancelled cancelled >> try_once fn
  attempts p cancelled fn (suc left) i =
      let again : Action (Retrying W) RuntimeExn A =
        modify (λ s. record s { waits = backoff p i ∷ s.waits })
        >> attempts p cancelled fn left (i + 1) in
      check_cancelled cancelled
      >> catch (try_once fn)
          (λ e. if is_cancelled e || p.is_write || not (is_retryable e) then raise e else again)

  -- `call_with_retry`
  unfoldable pub call_with_retry :
      RetryPolicy → (W → Bool) → Action W RuntimeExn A → Action (Retrying W) RuntimeExn A
  call_with_retry p cancelled fn =
      attempts p cancelled fn (if p.is_write then 0 else p.max_retries) 0
