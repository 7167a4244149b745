-- ===== src/Flatten/Rows.antt =====
-- src/tubedepth/flatten.py: the rows of the flattened tables, and how the values of a payload are read.
-- `none` is a `FlattenError`, whose text is only logged.
use Prim.Native.String.{count}
use yt_scrapper.Base.{
  ℕ, String, Bool, false, Option, none, some, Time, ltb, ◌==◌, ◌>>=◌, if◌then◌else◌,
}
use yt_scrapper.Json.{
  ℤ, Json, null, number, text, array, Members, get_member, is_truthy, items_count,
}

abbrev pub identifier_limit : ℕ
identifier_limit = 500

abbrev pub comment_id_limit : ℕ
comment_id_limit = 200

abbrev pub country_limit : ℕ
country_limit = 100

abbrev pub kind_limit : ℕ
kind_limit = 64

abbrev pub language_limit : ℕ
language_limit = 64

-- An instant that `datetime.fromisoformat` reads, with a zone or without one.
pub data Reading : Type 0 where
  aware naive : Time → Reading

-- `datetime.fromisoformat` and `date.fromisoformat`; `none` is their `ValueError`.
pub record Calendar : Type 0 where
  pub instant_of : String → Option Reading
  pub day_of : String → Option ℕ

pub record Observation : Type 0 where
  pub artifact_id : String
  pub kind : String
  pub target : String
  pub fetched_at : Time

-- The rows of models.py. A column that takes what the payload has there holds it as it is.
pub record VideoSnapshot : Type 0 where
  pub artifact_id : String
  pub video_id : String
  pub fetched_at : Time
  pub title : String
  pub channel : Json
  pub channel_id : Json
  pub duration_seconds : Option ℤ
  pub view_count : Option ℤ
  pub like_count : Option ℤ
  pub comment_count : Option ℤ
  pub published_at : Option Time
  pub published_date : Option ℕ

pub record ListingEntry : Type 0 where
  pub artifact_id : String
  pub position : ℕ
  pub kind : String
  pub target : String
  pub fetched_at : Time
  pub video_id : String
  pub title : Json
  pub view_count : Option ℤ
  pub duration_seconds : Option ℤ
  pub channel : Json
  pub channel_id : Json
  pub published_at : Option Time

pub record ChannelSnapshot : Type 0 where
  pub artifact_id : String
  pub channel_id : String
  pub fetched_at : Time
  pub name : Json
  pub handle : Json
  pub subscriber_count_approximate : Option ℤ
  pub view_count : Option ℤ
  pub video_count : Option ℤ
  pub country : Json

pub record CommentRecord : Type 0 where
  pub video_id : String
  pub comment_id : String
  pub parent_id : Json
  pub text : String
  pub author : Json
  pub author_id : Json
  pub like_count : Option ℤ
  pub is_hearted_by_uploader : Bool
  pub is_pinned : Bool
  pub published_at : Option Time
  pub first_seen_at : Time
  pub last_seen_at : Time

pub record TranscriptRecord : Type 0 where
  pub video_id : String
  pub language : String
  pub is_automatic : Bool
  pub full_text : Json
  pub segment_count : ℕ
  pub fetched_at : Time

abbrev is_over : Option ℕ → String → Bool
is_over none s = false
is_over (some limit) s = ltb limit (count s)

-- `_bounded`
unfoldable pub bounded : Json → ℕ → Option Json
bounded (text s) limit = if is_over (some limit) s then none else some (text s)
bounded v limit = some v

-- `_bounded` of a text.
unfoldable pub within : String → ℕ → Option String
within s limit = if is_over (some limit) s then none else some s

-- A text that is not empty.
abbrev pub usable : Json → Option String
usable (text s) = if count s == 0 then none else some s
usable _ = none

-- `_required_text`
unfoldable pub required_text : Members → String → Option ℕ → Option String
required_text payload name limit =
    usable (get_member name payload) >>= λ s. if is_over limit s then none else some s

-- `_integer`
unfoldable pub integer : Json → Option (Option ℤ)
integer null = some none
integer (number n) = some (some n)
integer _ = none

abbrev pub text_or_empty : Json → String
text_or_empty (text s) = s
text_or_empty _ = ""

abbrev pub or_empty_text : Json → Json
or_empty_text v = if is_truthy v then v else text ""

abbrev pub segments_in : Json → ℕ
segments_in (array segments) = items_count segments
segments_in _ = 0

-- A read without a zone counts as UTC.
abbrev pub as_utc : Reading → Time
as_utc (aware t) = t
as_utc (naive t) = t
