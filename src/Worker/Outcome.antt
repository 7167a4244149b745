-- ===== src/Worker/Outcome.antt =====
-- What the worker writes on a job's row: `_settle`, `_fail_or_retry`, `_requeue`, and the rows that
-- `_queue_follow_up` adds. Each takes the instant that `utcnow()` returned.
pub mod Rows
use yt_scrapper.Base.{
  ℕ, ◌+◌, ◌-◌, String, Bool, false, Option, none, some, List, [], ◌∷◌, ◌++◌, Time, leb, not, ◌||◌,
  is_some, if◌then◌else◌,
}
use yt_scrapper.Errors.{ErrorClass, Message, domain, Result, ok, err}
use yt_scrapper.Floats.{FloatOps}
use yt_scrapper.Retrying.{is_retryable, backoff_for_attempt}
use yt_scrapper.Models.{Job, Jobs, JobState, queued, failed, cancelled, class_name, get, modify}
use yt_scrapper.Registry.{Registry, Source, attempts_for}
use yt_scrapper.Registry

-- An error's class and text, which are written together.
abbrev pub Fault : Type 0
Fault = ErrorClass × Message

abbrev with_error : Option Fault → Job → Job
with_error none j = j
with_error (some (c, m)) j = record j { error_code = some (class_name c); error_message = some m }

abbrev pub settled : JobState → Option String → Option ℕ → Option Fault → Time → Job → Job
settled state digest byte_count fault now j = with_error fault (record j {
  state = state;
  finished_at = some now;
  payload_digest = digest;
  payload_bytes = byte_count;
})

-- `_settle`; a row that is gone is left alone.
unfoldable pub settle :
    String → JobState → Option String → Option ℕ → Option Fault → Time → Jobs → Jobs
settle k state digest byte_count fault now js =
    modify k (settled state digest byte_count fault now) js

abbrev pub requeued : Job → Job
requeued j = record j {
  state = queued;
  claimed_by = none;
  lease_expires_at = none;
  attempt_count = j.attempt_count - 1;
}

-- `_requeue`
unfoldable pub requeue : String → Jobs → Jobs
requeue k js = modify k requeued js

-- The three ends of `_fail_or_retry`: what was asked for, what is given up, what is tried again.
abbrev pub ended : JobState → Fault → Time → Job → Job
ended state (c, m) now j = record j {
  state = state;
  finished_at = some now;
  error_code = some (class_name c);
  error_message = some m;
}

abbrev pub retried : Time → Fault → Time → Job → Job
retried delay (c, m) now j = record j {
  state = queued;
  claimed_by = none;
  lease_expires_at = none;
  scheduled_at = now + delay;
  error_code = some (class_name c);
  error_message = some m;
}

unfoldable pub gives_up : Fault → Job → Bool
gives_up (c, m) j = not (is_retryable (domain c m)) || leb j.max_attempts j.attempt_count

module _ (fl : FloatOps) where
  abbrev pub retry : String → Option fl.Float → Fault → Time → Jobs → Option Jobs
  retry k none fault now js = none
  retry k (some delay) fault now js = some (modify k (retried (fl.microseconds delay) fault now) js)

  -- What is written on the row follows from the values that were read of it, the third argument.
  unfoldable pub fail_found : String → Option Job → Fault → Time → fl.Float → Jobs → Option Jobs
  unfolding gives_up
  fail_found k none fault now jitter js = some js
  fail_found k (some j) fault now jitter js =
      if is_some j.cancel_requested_at
      then some (modify k (ended cancelled fault now) js)
      else if gives_up fault j
      then some (modify k (ended failed fault now) js)
      else retry k (backoff_for_attempt fl j.attempt_count jitter) fault now js

  -- `_fail_or_retry`, which runs alone from its read to its commit; with other values read,
  -- `fail_found`. `none` is an exception of the backoff, after which nothing is committed.
  unfoldable pub fail_or_retry : String → Fault → Time → fl.Float → Jobs → Option Jobs
  unfolding fail_found
  fail_or_retry k fault now jitter js = fail_found k (get k js) fault now jitter js

-- A row that `Job(kind, target, max_attempts)` makes, under a new identifier.
abbrev pub new_job : String → String → String → ℕ → Time → Job
new_job identifier kind target max_attempts now = record {
  identifier = identifier;
  kind = kind;
  target = target;
  follow_up_kind = none;
  refresh = false;
  api_key_id = none;
  state = queued;
  attempt_count = 0;
  max_attempts = max_attempts;
  scheduled_at = now;
  created_at = now;
  claimed_by = none;
  lease_expires_at = none;
  finished_at = none;
  cancel_requested_at = none;
  webhook_url = none;
  webhook_attempts = 0;
  webhook_delivered_at = none;
  payload_digest = none;
  payload_bytes = none;
  error_code = none;
  error_message = none;
}

-- One job for each video of a listing, a pair of its new identifier and the video's.
unfoldable pub add_follow_ups : Source → Time → List (String × String) → Jobs → Jobs
add_follow_ups source now [] js = js
add_follow_ups source now ((identifier, video) ∷ videos) js =
    add_follow_ups source now videos
      (js ++ new_job identifier source.kind video (attempts_for source) now ∷ [])

abbrev pub follow_up_of : Result Source → Time → List (String × String) → Jobs → Result Jobs
follow_up_of (err c m) now videos js = err c m
follow_up_of (ok source) now videos js = ok (add_follow_ups source now videos js)

-- `_queue_follow_up`, whose registry lookup may raise. The job's kind is the source's own.
unfoldable pub queue_follow_up :
    Registry → String → Time → List (String × String) → Jobs → Result Jobs
unfolding add_follow_ups
queue_follow_up r kind now videos js = follow_up_of (Registry.get kind r) now videos js
