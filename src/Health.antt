-- ===== src/Health.antt =====
-- src/tubedepth/health.py: the tables that say what each source and each lane has been doing.
pub mod Streaks
pub mod Snapshot
use yt_scrapper.Base.{
  ℕ, ◌+◌, String, Bool, true, false, not, ◌&&◌, ◌||◌, ◌==◌, Option, none, some, List, [], ◌∷◌, Time,
  ltb, leb, same, is_some, if◌then◌else◌,
}
use yt_scrapper.Errors.{
  Failure, domain, Message, is_instance, extraction, upstream, configuration, rate_limited,
}
use yt_scrapper.Models.{ErrorCode, class_name}
use yt_scrapper.Floats.{FloatOps, lt}
use yt_scrapper.Egress.{Lane, State, same_route}

abbrev pub broken_after : ℕ
broken_after = 3

pub record SourceHealth : Type 0 where
  pub kind : String
  pub consecutive_failures : ℕ
  pub blocked : Bool
  pub last_success_at : Option Time
  pub last_failure_at : Option Time
  pub last_error_code : Option ErrorCode
  pub last_error_message : Option Message

abbrev pub counts_against_the_source : Option Failure → Bool
counts_against_the_source none = false
counts_against_the_source (some e) =
    is_instance extraction e || is_instance upstream e || is_instance configuration e

-- `session.get(SourceHealth, kind)`
unfoldable pub find_source : String → List SourceHealth → Option SourceHealth
find_source k [] = none
find_source k (r ∷ rs) = if same r.kind k then some r else find_source k rs

-- `session.add(row)`: a row that was loaded is written back, a new one is inserted.
unfoldable pub save_source : SourceHealth → List SourceHealth → List SourceHealth
save_source row [] = row ∷ []
save_source row (r ∷ rs) = if same r.kind row.kind then row ∷ rs else r ∷ save_source row rs

abbrev new_source : String → SourceHealth
new_source k = record {
  kind = k;
  consecutive_failures = 0;
  blocked = false;
  last_success_at = none;
  last_failure_at = none;
  last_error_code = none;
  last_error_message = none;
}

abbrev pub source_or_new : String → Option SourceHealth → SourceHealth
source_or_new k none = new_source k
source_or_new k (some r) = r

abbrev code_of : Option Failure → Option ErrorCode
code_of (some (domain c _)) = some (class_name c)
code_of _ = none

abbrev message_of : Option Failure → Option Message
message_of (some (domain _ m)) = some m
message_of _ = none

abbrev is_rate_limited : Option Failure → Bool
is_rate_limited none = false
is_rate_limited (some e) = is_instance rate_limited e

-- What `record` does to the row. A failure that counts is a domain error.
unfoldable pub observed_source : Bool → Option Failure → Time → SourceHealth → SourceHealth
observed_source true error now r = record r {
  last_success_at = some now;
  consecutive_failures = 0;
  last_error_code = none;
}
observed_source false error now r = record r {
  last_failure_at = some now;
  consecutive_failures = r.consecutive_failures + 1;
  last_error_code = code_of error;
  last_error_message = message_of error;
  blocked = is_rate_limited error;
}

-- `SourceHealthService.record`
unfoldable pub record_source :
    String → Bool → Option Failure → Time → List SourceHealth → List SourceHealth
unfolding find_source save_source observed_source
record_source k succeeded error now rows =
    if not succeeded && not (counts_against_the_source error)
    then rows
    else save_source (observed_source succeeded error now (source_or_new k (find_source k rows)))
        rows

pub data Status : Type 0 where
  unknown blocked broken degraded stale healthy : Status

-- `_status` of a row.
abbrev pub status_of : Time → Time → SourceHealth → Status
status_of stale_after now r =
    if not (is_some r.last_success_at) && r.consecutive_failures == 0
    then unknown
    else if leb broken_after r.consecutive_failures
    then (if r.blocked then blocked else broken)
    else if not (r.consecutive_failures == 0)
    then degraded
    else elim r.last_success_at [
      | none ↦ healthy
      | some t ↦ if ltb (t + stale_after) now then stale else healthy
    ]

unfoldable pub status : Time → Time → Option SourceHealth → Status
status stale_after now none = unknown
status stale_after now (some r) = status_of stale_after now r

pub record LaneHealth (fl : FloatOps) : Type 0 where
  pub route : String × Lane
  pub window : fl.Float
  pub in_flight : ℕ
  pub quarantine_streak : ℕ
  pub quarantined_until : Option Time
  pub observed_at : Time

module _ (fl : FloatOps) where
  open fl use {Float, sub, decimal, microseconds}

  abbrev lane_row : String × Lane → State fl → Float → Time → LaneHealth fl
  lane_row route s monotonic now =
      let remaining = sub s.quarantined_until monotonic in
      record {
        route = route;
        window = s.window;
        in_flight = s.in_flight;
        quarantine_streak = s.quarantine_streak;
        quarantined_until =
            if lt fl (decimal 0 0) remaining then some (now + microseconds remaining) else none;
        observed_at = now;
      }

  unfoldable save_lane : LaneHealth fl → List (LaneHealth fl) → List (LaneHealth fl)
  save_lane row [] = row ∷ []
  save_lane row (r ∷ rs) = if same_route r.route row.route then row ∷ rs else r ∷ save_lane row rs

  -- `LaneHealthService.observe`
  unfoldable pub observe_lane :
      String × Lane → State fl → Float → Time → List (LaneHealth fl) → List (LaneHealth fl)
  unfolding save_lane
  observe_lane route s monotonic now rows = save_lane (lane_row route s monotonic now) rows
