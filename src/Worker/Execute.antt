-- ===== src/Worker/Execute.antt =====
-- `Worker._execute`: one claimed job, from the permit to its row. What happens outside the method
-- is an argument: the clock readings, what the collection came to, and `during`, which is what
-- other threads and processes did while it ran.
pub mod Release
pub mod Effects
use yt_scrapper.Base.{
  ℕ, String, Bool, true, false, Option, none, some, List, [], ◌∷◌, Time, is_some, ◌||◌, not,
  if◌then◌else◌,
}
use yt_scrapper.Errors.{
  ErrorClass, Message, domain, not_found, upstream, no_source_for, unexpected_failure, text, Result,
  ok, err,
}
use yt_scrapper.Floats.{FloatOps}
use yt_scrapper.Models.{Job, Jobs, succeeded, failed, cancelled, get}
use yt_scrapper.Registry
use yt_scrapper.Registry.{Registry, Source}
use yt_scrapper.Egress.{
  Lane, Verdict, neutral, verdict_for_error, Controller, acquire, is_available, release, observed,
}
use yt_scrapper.Egress
use yt_scrapper.Health.{SourceHealth, LaneHealth, record_source, observe_lane}
use yt_scrapper.Worker.Gates.{Slots, leave}
use yt_scrapper.Worker.Outcome.{settle, requeue, fail_or_retry, queue_follow_up}

-- What `_collect` came to: a payload, with the identifiers for the videos of a listing beside
-- those of the jobs that would collect them; a domain error; or another exception.
pub data Collected : Type 0 where
  payload : Option (List (String × String)) → String → ℕ → Collected
  raised : ErrorClass → Message → Collected
  crashed : Collected

-- What the verdict is when the collection is over.
unfoldable pub verdict_of : Collected → Verdict
verdict_of (payload _ _ _) = Verdict.ok
verdict_of (raised c m) = verdict_for_error (domain c m)
verdict_of crashed = neutral

module _ (fl : FloatOps) where
  -- All that the worker shares: the tables, its slots and the rate controller.
  pub record World : Type 0 where
    pub jobs : Jobs
    pub sources : List SourceHealth
    pub lanes : List (LaneHealth fl)
    pub slots : Slots
    pub controller : Controller fl

  -- One round of the wait for a permit: two clock readings, and what others did while it slept.
  pub record Round : Type 0 where
    pub asked_at : fl.Float
    pub checked_at : fl.Float
    pub others : Controller fl → Controller fl

  pub record Circumstances : Type 0 where
    pub rounds : List Round
    pub during : World → World
    pub collected : Collected
    pub released_at : fl.Float
    pub reading : fl.Float
    pub observed_at : fl.Float
    pub lane_is_written : Bool
    pub now : Time
    pub jitter : fl.Float

  -- `_wait_for_permit`: there are as many rounds as the deadline allows.
  unfoldable pub wait_for_permit : String × Lane → List Round → Controller fl → Bool × Controller fl
  wait_for_permit route [] c = (false, c)
  wait_for_permit route (r ∷ rs) c =
      let (admitted, c') = acquire fl c route r.asked_at in
      let (available, c'') = is_available fl c' route r.checked_at in
      let rest = wait_for_permit route rs (r.others c'') in
      if admitted then (true, c') else (if not available then (false, c'') else rest)

  -- What the `except` clauses write, and what is in the verdict when they are done. The flag is an
  -- exception that leaves them.
  abbrev write_failure :
      String → String → Option Jobs → ErrorClass → Message → Time → World → World × Bool
  write_failure k kind none c m now w =
      (record w { sources = record_source kind false (some (domain c m)) now w.sources }, true)
  write_failure k kind (some js) c m now w = (
    record w { jobs = js; sources = record_source kind false (some (domain c m)) now w.sources },
    false,
  )

  unfoldable pub handle : String → String → String → Circumstances → World → World × Bool
  handle k kind target e w = elim e.collected [
    | payload _ _ _ ↦ (w, false)
    | raised c m ↦
        write_failure k kind (fail_or_retry fl k (c, m) e.now e.jitter w.jobs) c m e.now w
    | crashed ↦
        write_failure k kind
          (some (
            settle k failed none none (some (upstream, unexpected_failure kind target)) e.now
              w.jobs))
          upstream (text "unexpected") e.now w
  ]

  -- The `finally` of the collection. An exception of `release` skips the lane's row; one of the
  -- lane's row is caught.
  unfoldable pub finish : String × Lane → Circumstances → World → World × Bool
  finish route e w =
      let (c, overflowed) =
        release fl w.controller route (verdict_of e.collected) e.released_at e.reading in
      if overflowed
      then (record w { controller = c }, true)
      else let (s, c') = observed fl c route in
        (
          record w {
            controller = c';
            lanes =
                if e.lane_is_written
                then observe_lane fl route s e.observed_at e.now w.lanes
                else w.lanes;
          },
          false,
        )

  -- `_cancellation_requested`
  abbrev is_requested : Option Job → Bool
  is_requested none = false
  is_requested (some j) = is_some j.cancel_requested_at

  unfoldable pub cancellation_requested : String → Jobs → Bool
  cancellation_requested k js = is_requested (get k js)

  abbrev queued_or_raised : World → Result Jobs → World × Bool
  queued_or_raised w (err _ _) = (w, true)
  queued_or_raised w (ok js) = (record w { jobs = js }, false)

  abbrev fan_out :
      Registry → Option String → Option (List (String × String)) → Time → World → World × Bool
  fan_out r (some kind) (some videos) now w =
      queued_or_raised w (queue_follow_up r kind now videos w.jobs)
  fan_out r _ _ now w = (w, false)

  -- The rest of the method, after the slot has been given back.
  unfoldable pub conclude :
      Registry → String → String → Option String → Circumstances → World → World × Bool
  unfolding cancellation_requested
  conclude r k kind follow_up e w = elim e.collected [
    | payload videos digest byte_count ↦
        if cancellation_requested k w.jobs
        then (record w { jobs = settle k cancelled none none none e.now w.jobs }, false)
        else fan_out r follow_up videos e.now (record w {
          sources = record_source kind true none e.now w.sources;
          jobs = settle k succeeded (some digest) (some byte_count) none e.now w.jobs;
        })
    | _ ↦ (w, false)
  ]

  abbrev pub leaving : Source → World → World
  leaving source w = record w { slots = leave source.cost w.slots }

  -- The collection under a permit. Its exceptions pass the two `finally` clauses.
  unfoldable pub execute_permitted :
      Registry
      → String
      → Source
      → String
      → String
      → String
      → Option String
      → Circumstances
      → World
      → World × Bool
  unfolding handle finish conclude
  execute_permitted r egress source k kind target follow_up e w =
      let (w1, failed_to_write) = handle k kind target e (e.during w) in
      let (w2, failed_to_release) = finish (egress, source.lane) e w1 in
      if failed_to_write || failed_to_release
      then (leaving source w2, true)
      else conclude r k kind follow_up e (leaving source w2)

  abbrev execute_source :
      Registry
      → String
      → Source
      → String
      → String
      → String
      → Option String
      → Circumstances
      → World
      → World × Bool
  execute_source r egress source k kind target follow_up e w =
      let (permitted, c) = wait_for_permit (egress, source.lane) e.rounds w.controller in
      if permitted
      then execute_permitted r egress source k kind target follow_up e (record w { controller = c })
      else (leaving source (record w { controller = c; jobs = requeue k w.jobs }), false)

  abbrev execute_found :
      Registry
      → String
      → Option Source
      → String
      → String
      → String
      → Option String
      → Circumstances
      → World
      → World × Bool
  execute_found r egress none k kind target follow_up e w = (
    record w {
      jobs = settle k failed none none (some (not_found, no_source_for kind)) e.now w.jobs;
    },
    false,
  )
  execute_found r egress (some source) k kind target follow_up e w =
      execute_source r egress source k kind target follow_up e w

  -- `_execute`. The flag is an exception that leaves the method.
  unfoldable pub execute :
      Registry
      → String
      → String
      → String
      → String
      → Option String
      → Circumstances
      → World
      → World × Bool
  unfolding wait_for_permit execute_permitted
  execute r egress k kind target follow_up e w =
      execute_found r egress (Registry.find kind r) k kind target follow_up e w
