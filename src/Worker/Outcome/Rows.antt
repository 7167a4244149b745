-- ===== src/Worker/Outcome/Rows.antt =====
-- What each ending leaves on the job's row.
use yt_scrapper.Base.{
  ◌^◌, ◌-◌, ◌+◌, none, ◌≤◌, ◌<◌, String, true, false, some, Time, is_some, arith, ◌≡◌, refl, ◌⊎◌,
  inl, inr, Bool-cases,
}
use yt_scrapper.Errors.{domain}
use yt_scrapper.Floats.{FloatOps, FloatLaws, min}
use yt_scrapper.Retrying.{is_retryable, backoff_for_attempt}
use yt_scrapper.Models.{Job, Jobs, JobState, queued, failed, cancelled, class_name, get, modify}
use yt_scrapper.Models.Rows.{KeepsKey, get-modify_self}
use yt_scrapper.Worker.Outcome.{Fault, ended, retried, gives_up, fail_or_retry, fail_found}

module _ (fl : FloatOps) (fault : Fault) (now : Time) (jitter : fl.Float) where
  -- A row that has come to its end, and one that waits for another attempt: until the smaller of
  -- 1800 seconds and 15 seconds doubled for each attempt but the first, times the jitter, have
  -- passed, with no worker and no lease. Both say what went wrong, and keep all other columns.
  abbrev pub IsEnded : JobState → Job → Job → Type 0
  IsEnded state j j' = j' ≡ record j {
    state = state;
    finished_at = some now;
    error_code = some (class_name fault.0);
    error_message = some fault.1;
  }

  abbrev pub IsRetried : Job → Job → Type 0
  IsRetried j j' =
      (power : fl.Float) × (fl.of_int (2 ^ (j.attempt_count - 1)) ≡ some power)
      × (j' ≡ record j {
        state = queued;
        claimed_by = none;
        lease_expires_at = none;
        scheduled_at =
            now
            + fl.microseconds
                (fl.mul (min fl (fl.decimal 1800 0) (fl.mul (fl.decimal 15 0) power)) jitter);
        error_code = some (class_name fault.0);
        error_message = some fault.1;
      })

  -- The row after a failure: what the client asked for if it cancelled; the end, if the error is
  -- not retryable or the attempts are used up; and another attempt otherwise.
  abbrev pub AfterFailure : Job → Job → Type 0
  AfterFailure j j' =
      ((is_some j.cancel_requested_at ≡ true) × IsEnded cancelled j j')
      ⊎ ((is_some j.cancel_requested_at ≡ false)
          × ((is_retryable (domain fault.0 fault.1) ≡ false) ⊎ (j.max_attempts ≤ j.attempt_count))
          × IsEnded failed j j')
      ⊎ ((is_some j.cancel_requested_at ≡ false)
          × (is_retryable (domain fault.0 fault.1) ≡ true)
          × (j.attempt_count < j.max_attempts)
          × IsRetried j j')

  -- A change of the one row, and what it leaves there.
  left_by :
      (f : Job → Job) (k : String) (js : Jobs) (j : Job)
      → KeepsKey f
      → get k js ≡ some j
      → AfterFailure j (f j)
      → fail_or_retry fl k fault now jitter js ≡ some (modify k f js)
      → (js' : Jobs) × (j' : Job) × (fail_or_retry fl k fault now jitter js ≡ some js')
        × (get k js' ≡ some j')
        × AfterFailure j j'
  left_by f k js j h e a q = (modify k f js, f j, q, get-modify_self k f js h e, a)

  fail_or_retry-retried :
      (k : String) (js : Jobs) (j : Job) (delay : fl.Float)
      → get k js ≡ some j
      → is_some j.cancel_requested_at ≡ false
      → gives_up fault j ≡ false
      → backoff_for_attempt fl j.attempt_count jitter ≡ some delay
      → fail_or_retry fl k fault now jitter js
        ≡ some (modify k (retried (fl.microseconds delay) fault now) js)
  unfolding fail_or_retry
  fail_or_retry-retried k js j delay e c g b = rw (e, fail_found) (rw (c, g, b))

  fail_or_retry-ended :
      (k : String) (js : Jobs) (j : Job)
      → get k js ≡ some j
      → is_some j.cancel_requested_at ≡ false
      → gives_up fault j ≡ true
      → fail_or_retry fl k fault now jitter js ≡ some (modify k (ended failed fault now) js)
  unfolding fail_or_retry
  fail_or_retry-ended k js j e c g = rw (e, fail_found) (rw (c, g))

  fail_or_retry-cancelled :
      (k : String) (js : Jobs) (j : Job)
      → get k js ≡ some j
      → is_some j.cancel_requested_at ≡ true
      → fail_or_retry fl k fault now jitter js ≡ some (modify k (ended cancelled fault now) js)
  unfolding fail_or_retry
  fail_or_retry-cancelled k js j e c = rw (e, fail_found) (rw c)

  gives_up-cases :
      (j : Job)
      → gives_up fault j ≡ true
      → (is_retryable (domain fault.0 fault.1) ≡ false) ⊎ (j.max_attempts ≤ j.attempt_count)
  unfolding gives_up
  gives_up-cases j g = ground arith

  goes_on-cases :
      (j : Job)
      → gives_up fault j ≡ false
      → (is_retryable (domain fault.0 fault.1) ≡ true) × (j.attempt_count < j.max_attempts)
  unfolding gives_up
  goes_on-cases j g = ground arith

  -- A failed attempt is always written down, as long as it is at most the 1024th, whose backoff is a
  -- float. The row becomes cancelled if its cancellation had been asked for. Otherwise it becomes
  -- failed, if the error is not retryable or the attempts are used up; and if not, it is queued
  -- again, with no worker and no lease, for the instant at which the backoff has passed: the smaller
  -- of 1800 seconds and 15 seconds doubled for each attempt but the first, times the jitter. The
  -- error is on the row in each case, and the other columns stay.
  pub fail_or_retry-row :
      (laws : FloatLaws fl) (k : String) (js : Jobs) (j : Job)
      → get k js ≡ some j
      → j.attempt_count ≤ 1024
      → (js' : Jobs) × (j' : Job) × (fail_or_retry fl k fault now jitter js ≡ some js')
        × (get k js' ≡ some j')
        × AfterFailure j j'
  unfolding backoff_for_attempt
  fail_or_retry-row laws k js j e n = elim (Bool-cases (is_some j.cancel_requested_at)) [
    | inl c ↦
        left_by (ended cancelled fault now) k js j (λ i. refl) e (inl (c, refl))
          (fail_or_retry-cancelled k js j e c)
    | inr c ↦ elim (Bool-cases (gives_up fault j)) [
      | inl g ↦
          left_by (ended failed fault now) k js j (λ i. refl) e
            (inr (inl (c, gives_up-cases j g, refl))) (fail_or_retry-ended k js j e c g)
      | inr g ↦
          let (power, q) = laws.of_int_power (j.attempt_count - 1) (omega (arith, n)) in
          let delay = fl.mul (min fl (fl.decimal 1800 0) (fl.mul (fl.decimal 15 0) power)) jitter in
          let b : backoff_for_attempt fl j.attempt_count jitter ≡ some delay =
            rw (q, backoff_for_attempt) refl in
          let (r, m) = goes_on-cases j g in
          left_by (retried (fl.microseconds delay) fault now) k js j (λ i. refl) e
            (inr (inr (c, r, m, (power, q, refl)))) (fail_or_retry-retried k js j delay e c g b)
    ]
  ]
