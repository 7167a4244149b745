-- ===== src/Retrying.antt =====
-- src/tubedepth/retrying.py
use yt_scrapper.Base.{ℕ, ◌≤◌, ◌-◌, ◌^◌, ◌≡◌, Bool, false, Option, none, some, arith}
use yt_scrapper.Errors.{Failure, domain, foreign, retryable}
use yt_scrapper.Floats.{FloatOps, FloatLaws, min}

pub is_retryable : Failure → Bool
is_retryable (domain c _) = retryable c
is_retryable (foreign _) = false

module _ (fl : FloatOps) where
  open fl use {Float, decimal, of_int, mul}

  -- `backoff_for_attempt`, in seconds, with the value that `jitter()` returned. `none` is the
  -- `OverflowError` of a power of two beyond the range of a float.
  unfoldable pub backoff_for_attempt : ℕ → Float → Option Float
  backoff_for_attempt attempt jitter = elim (of_int (2 ^ (attempt - 1))) [
    | none ↦ none
    | some power ↦ some (mul (min fl (decimal 1800 0) (mul (decimal 15 0) power)) jitter)
  ]

  -- The backoff of an attempt whose power of two is a float.
  pub backoff_for_attempt-total :
      (laws : FloatLaws fl) (attempt : ℕ) (jitter : Float)
      → attempt ≤ 1024
      → (delay : Float) × (backoff_for_attempt attempt jitter ≡ some delay)
  unfolding backoff_for_attempt
  backoff_for_attempt-total laws attempt jitter h =
      let (power, e) = laws.of_int_power (attempt - 1) (omega arith) in
      (mul (min fl (decimal 1800 0) (mul (decimal 15 0) power)) jitter, rw (e, backoff_for_attempt))
