-- ===== src/Api/Listing.antt =====
-- `list_jobs` and `list_artifacts`: a page of a ledger, newest first. `limit` is one that the
-- framework lets through, from 1 to 500.
use yt_scrapper.Base.{
  ℕ, if◌then◌else◌, String, Bool, true, Option, none, some, List, Time, leb, same, ◌&&◌,
}
use yt_scrapper.Errors.{Result, ok, err, Message, validation, no_offset}
use yt_scrapper.Models.{Job, JobState, queued, running, succeeded, failed, cancelled, ErrorCode}
use yt_scrapper.Artifacts.{Artifact}
use yt_scrapper.Keyset.{Cursor, precedes}
use yt_scrapper.Keyset.Pages.{Page, page_at, map_page}
use yt_scrapper.Api.Cursors.{
  Bound, with_offset, without_offset, Codec, encode_cursor, decode_cursor,
}
use yt_scrapper.Collection.State.{Attempt, returned, raised, crashed}
use yt_scrapper.Texts.{is_empty}

-- `_aware_time_bound`
unfoldable pub aware_time_bound : String → Option Bound → Result (Option Time)
aware_time_bound name none = ok none
aware_time_bound name (some (with_offset t)) = ok (some t)
aware_time_bound name (some (without_offset t)) = err validation (no_offset name)

-- `if value: query.where(column == value)`: an empty text filters nothing.
abbrev is_value : String → Option String → Bool
is_value column none = true
is_value column (some v) = if is_empty v then true else same column v

abbrev is_since : Option Time → Time → Bool
is_since none t = true
is_since (some since) t = leb since t

abbrev is_until : Option Time → Time → Bool
is_until none t = true
is_until (some until) t = leb t until

-- `job.state.value`
abbrev pub value_of : JobState → String
value_of queued = "queued"
value_of running = "running"
value_of succeeded = "succeeded"
value_of failed = "failed"
value_of cancelled = "cancelled"

pub record JobFilter : Type 0 where
  pub state : Option String
  pub kind : Option String
  pub target : Option String
  pub since : Option Bound
  pub until : Option Bound

unfoldable pub is_listed : JobFilter → Option Time → Option Time → Job → Bool
is_listed f since until j =
    is_value (value_of j.state) f.state
    && (is_value j.kind f.kind
        && (is_value j.target f.target
            && (is_since since j.created_at && is_until until j.created_at)))

pub record JobView : Type 0 where
  pub job_id : String
  pub kind : String
  pub target : String
  pub state : String
  pub attempt_count : ℕ
  pub error_code : Option ErrorCode
  pub error_message : Option Message
  pub api_key_id : Option String
  pub claimed_by : Option String
  pub payload_bytes : Option ℕ
  pub created_at : Option Time
  pub finished_at : Option Time

-- `_job_view`
abbrev pub job_view : Job → JobView
job_view j = record {
  job_id = j.identifier;
  kind = j.kind;
  target = j.target;
  state = value_of j.state;
  attempt_count = j.attempt_count;
  error_code = j.error_code;
  error_message = j.error_message;
  api_key_id = j.api_key_id;
  claimed_by = j.claimed_by;
  payload_bytes = j.payload_bytes;
  created_at = some j.created_at;
  finished_at = j.finished_at;
}

abbrev pub job_key : Job → Cursor
job_key j = (j.created_at, j.identifier)

abbrev pub given {ℓ} : {A : Type ℓ} → Attempt A → Option A
given (returned a) = some a
given _ = none

-- A bound that is not refused goes on.
abbrev pub bounded_by {ℓ κ} : {A : Type ℓ} {B : Type κ} → Result A → (A → Attempt B) → Attempt B
bounded_by (ok a) f = f a
bounded_by (err c m) f = raised c m

-- An answer of a query that is made.
abbrev pub shown {ℓ κ} : {A : Type ℓ} {B : Type κ} → Attempt A → (A → B) → Attempt B
shown (returned a) f = returned (f a)
shown (raised c m) f = raised c m
shown crashed f = crashed

-- What a query makes of a cursor. A column refuses an instant without an offset, by an exception of
-- another class (`UtcDateTime`, models.py).
abbrev pub asked_after : Result (Bound × String) → Attempt (Option Cursor)
asked_after (ok (with_offset t, identifier)) = returned (some (t, identifier))
asked_after (ok (without_offset t, identifier)) = crashed
asked_after (err c m) = raised c m

abbrev pub artifact_key : Artifact → Cursor
artifact_key a = (a.fetched_at, a.identifier)

pub record ArtifactFilter : Type 0 where
  pub kind : Option String
  pub target : Option String
  pub since : Option Bound
  pub until : Option Bound

unfoldable pub is_listed_artifact : ArtifactFilter → Option Time → Option Time → Artifact → Bool
is_listed_artifact f since until a =
    is_value a.kind f.kind
    && (is_value a.target f.target && (is_since since a.fetched_at && is_until until a.fetched_at))

pub record ArtifactView : Type 0 where
  pub kind : String
  pub target : String
  pub schema_version : Option String
  pub digest : String
  pub byte_count : ℕ
  pub fetched_at : Time
  pub fresh_until : Time

abbrev pub artifact_view : Artifact → ArtifactView
artifact_view a = record {
  kind = a.kind;
  target = a.target;
  schema_version = a.schema_version;
  digest = a.digest;
  byte_count = a.byte_count;
  fetched_at = a.fetched_at;
  fresh_until = a.fresh_until;
}

module _ (codec : Codec) (earlier : String → String → Bool) where
  -- The comparison of the query: an older row, or one as old with an earlier identifier.
  abbrev pub is_newer : Cursor → Cursor → Bool
  is_newer c d = precedes earlier d c

  -- `if cursor: ...`
  unfoldable pub cursor_of : Option String → Attempt (Option Cursor)
  unfolding decode_cursor
  cursor_of none = returned none
  cursor_of (some s) = if is_empty s then returned none else asked_after (decode_cursor codec s)

  abbrev pub given_cursor : Option String → Option (Option Cursor)
  given_cursor s = given (cursor_of s)

  unfoldable pub listed_jobs :
      JobFilter → ℕ → Option Time → Option Time → List Job → Option Cursor → Page JobView
  unfolding is_listed page_at
  listed_jobs f limit since until jobs c = map_page job_view (
      page_at job_key is_newer (encode_cursor codec) given_cursor (is_listed f since until) limit
        jobs c)

  -- `list_jobs`
  unfoldable pub list_jobs : JobFilter → ℕ → Option String → List Job → Attempt (Page JobView)
  unfolding aware_time_bound cursor_of listed_jobs
  list_jobs f limit cursor jobs = bounded_by (aware_time_bound "since" f.since) (λ since.
      bounded_by (aware_time_bound "until" f.until)
        (λ until. shown (cursor_of cursor) (listed_jobs f limit since until jobs)))

  unfoldable pub listed_artifacts :
      ArtifactFilter
      → ℕ
      → Option Time
      → Option Time
      → List Artifact
      → Option Cursor
      → Page ArtifactView
  unfolding is_listed_artifact page_at
  listed_artifacts f limit since until rows c = map_page artifact_view (
      page_at artifact_key is_newer (encode_cursor codec) given_cursor
        (is_listed_artifact f since until) limit rows c)

  -- `list_artifacts`
  unfoldable pub list_artifacts :
      ArtifactFilter → ℕ → Option String → List Artifact → Attempt (Page ArtifactView)
  unfolding aware_time_bound cursor_of listed_artifacts
  list_artifacts f limit cursor rows = bounded_by (aware_time_bound "since" f.since) (λ since.
      bounded_by (aware_time_bound "until" f.until)
        (λ until. shown (cursor_of cursor) (listed_artifacts f limit since until rows)))
