-- ===== src/Egress.antt =====
-- src/tubedepth/egress/control.py: adaptive rate control per (egress, lane). The state of the
-- controller is passed along; each clock reading that a method takes is an argument. The lock
-- makes every method one step.
pub mod Bounds
pub mod Routes
pub mod Recovery
use yt_scrapper.Base.{
  ℕ, ◌+◌, ◌-◌, ◌^◌, String, Bool, true, false, Option, none, some, List, [], ◌∷◌, leb, same, ◌&&◌,
  if◌then◌else◌,
}
use Prim.Native.Nat
use yt_scrapper.Errors.{Failure, is_instance, rate_limited, upstream}
use yt_scrapper.Floats.{FloatOps, lt, min, max}

pub data Lane : Type 0 where
  youtube sponsorblock youtube_data_api : Lane

pub data Verdict : Type 0 where
  ok throttled blocked neutral : Verdict

unfoldable pub verdict_for_error : Failure → Verdict
verdict_for_error e =
    if is_instance rate_limited e
    then blocked
    else if is_instance upstream e
    then throttled
    else neutral

abbrev pub recovery_successes_needed : ℕ
recovery_successes_needed = 20

abbrev same_lane : Lane → Lane → Bool
same_lane youtube youtube = true
same_lane sponsorblock sponsorblock = true
same_lane youtube_data_api youtube_data_api = true
same_lane _ _ = false

-- Equality of the dictionary's keys.
unfoldable pub same_route : String × Lane → String × Lane → Bool
same_route (e, l) (f, m) = same e f && same_lane l m

pub record LaneState (fl : FloatOps) : Type 0 where
  pub window : fl.Float
  pub quarantined_until : fl.Float
  pub quarantine_streak : ℕ
  pub recovery_successes : ℕ
  pub in_flight : ℕ
  pub minimum_interval : fl.Float
  pub next_earliest_start : fl.Float

pub record RateController (fl : FloatOps) : Type 0 where
  pub minimum_interval_seconds : fl.Float
  pub window_ceiling : fl.Float
  pub states : List ((String × Lane) × LaneState fl)

module _ (fl : FloatOps) where
  open fl use {Float, decimal, of_int, add, mul, div, truncate}

  abbrev pub State : Type 0
  State = LaneState fl

  abbrev pub Controller : Type 0
  Controller = RateController fl

  -- `LaneState(minimum_interval=...)`, the other fields at their defaults.
  abbrev pub new_lane : Controller → State
  new_lane c = record {
    window = decimal 1 0;
    quarantined_until = decimal 0 0;
    quarantine_streak = 0;
    recovery_successes = 0;
    in_flight = 0;
    minimum_interval = c.minimum_interval_seconds;
    next_earliest_start = decimal 0 0;
  }

  -- How many requests a lane may have under way.
  abbrev pub allowed : State → ℕ
  allowed s = Nat.max 1 (truncate s.window)

  abbrev ok_state : Controller → State → State
  ok_state c s =
      let successes = s.recovery_successes + 1 in
      record s {
        window = min fl c.window_ceiling (add s.window (div (decimal 1 0) s.window));
        minimum_interval =
            max fl c.minimum_interval_seconds (mul s.minimum_interval (decimal 95 2));
        recovery_successes = successes;
        quarantine_streak =
            if leb recovery_successes_needed successes then 0 else s.quarantine_streak;
      }

  abbrev throttled_state : State → Float → State
  throttled_state s now =
      let interval =
        min fl (decimal 60 0) (max fl (decimal 1 0) (mul s.minimum_interval (decimal 2 0))) in
      record s {
        window = max fl (decimal 1 0) (div s.window (decimal 2 0));
        minimum_interval = interval;
        next_earliest_start = add now interval;
      }

  abbrev blocked_state : State → State
  blocked_state s = record s {
    window = decimal 1 0;
    quarantine_streak = s.quarantine_streak + 1;
    recovery_successes = 0;
  }

  -- The length of a quarantine. `none` is an `OverflowError`, for a power that is no float.
  unfoldable pub quarantine_seconds : ℕ → Option Float
  quarantine_seconds streak = elim (of_int (2 ^ (streak - 1))) [
    | none ↦ none
    | some power ↦ some (min fl (decimal 3600 0) (mul (decimal 300 0) power))
  ]

  -- What was assigned before the exception stays assigned; the flag says that it was raised.
  abbrev quarantined : State → Float → Option Float → State × Bool
  quarantined s now none = (s, true)
  quarantined s now (some backoff) = (record s { quarantined_until = add now backoff }, false)

  -- `_apply`, with the clock reading that it is given and the one that it takes itself.
  unfoldable pub apply : Controller → State → Verdict → Float → Float → State × Bool
  apply c s neutral now reading = (s, false)
  apply c s ok now reading = (ok_state c s, false)
  apply c s throttled now reading = (throttled_state s now, false)
  apply c s blocked now reading =
      let t = blocked_state s in quarantined t reading (quarantine_seconds t.quarantine_streak)

  -- The three gates of `acquire`, on the lane's state.
  unfoldable pub acquire_lane : State → Float → Bool × State
  acquire_lane s now =
      if lt fl now s.quarantined_until
      then (false, s)
      else if leb (allowed s) s.in_flight
      then (false, s)
      else if lt fl now s.next_earliest_start
      then (false, s)
      else (
        true,
        record s { in_flight = s.in_flight + 1; next_earliest_start = add now s.minimum_interval },
      )

  unfoldable pub release_lane : Controller → State → Verdict → Float → Float → State × Bool
  unfolding apply
  release_lane c s v now reading = apply c (record s { in_flight = s.in_flight - 1 }) v now reading

  -- `self._states.get(key)`
  unfoldable pub find : String × Lane → List ((String × Lane) × State) → Option State
  find k [] = none
  find k ((i, s) ∷ m) = if same_route i k then some s else find k m

  -- `self._states[key] = state`, and a write to the state that the key holds.
  unfoldable pub put :
      String × Lane → State → List ((String × Lane) × State) → List ((String × Lane) × State)
  put k s [] = (k, s) ∷ []
  put k s ((i, t) ∷ m) = if same_route i k then (i, s) ∷ m else (i, t) ∷ put k s m

  -- `_state`; a lane that is not there yet is the one that is created.
  abbrev or_new : Controller → Option State → State
  or_new c none = new_lane c
  or_new c (some s) = s

  unfoldable pub lane_state : Controller → String × Lane → State
  unfolding find
  lane_state c k = or_new c (find k c.states)

  abbrev write : Controller → String × Lane → State → Controller
  write c k s = record c { states = put k s c.states }

  unfoldable pub is_available : Controller → String × Lane → Float → Bool × Controller
  unfolding lane_state put
  is_available c k now = let s = lane_state c k in (fl.leb s.quarantined_until now, write c k s)

  unfoldable pub observed : Controller → String × Lane → State × Controller
  unfolding lane_state put
  observed c k = let s = lane_state c k in (s, write c k s)

  unfoldable pub acquire : Controller → String × Lane → Float → Bool × Controller
  unfolding lane_state put acquire_lane
  acquire c k now = let (admitted, s) = acquire_lane (lane_state c k) now in (admitted, write c k s)

  -- The flag is an exception that leaves the method.
  unfoldable pub release : Controller → String × Lane → Verdict → Float → Float → Controller × Bool
  unfolding lane_state put release_lane
  release c k v now reading =
      let (s, raised) = release_lane c (lane_state c k) v now reading in (write c k s, raised)

  -- `permit`, once its body is over: the verdict is good only if nothing was raised.
  unfoldable leave_permit : Controller → String × Lane → Bool → Float → Float → Controller × Bool
  unfolding release
  leave_permit c k succeeded = release c k (if succeeded then ok else throttled)

  unfoldable record_verdict :
      Controller → String × Lane → Verdict → Float → Float → Controller × Bool
  unfolding lane_state put apply
  record_verdict c k v now reading =
      let (s, raised) = apply c (lane_state c k) v now reading in (write c k s, raised)

  -- What happens to one lane: a request for a slot, the end of a request, or a bare verdict.
  pub data Event : Type 0 where
    asks : Float → Event
    ends : Verdict → Float → Float → Event
    reports : Verdict → Float → Float → Event

  unfoldable pub step : Controller → State → Event → State
  unfolding acquire_lane release_lane apply
  step c s (asks now) = (acquire_lane s now).1
  step c s (ends v now reading) = (release_lane c s v now reading).0
  step c s (reports v now reading) = (apply c s v now reading).0

  unfoldable pub run : Controller → State → List Event → State
  unfolding step
  run c s [] = s
  run c s (e ∷ es) = run c (step c s e) es
