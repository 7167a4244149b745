-- ===== src/Flatten/Transforms.antt =====
-- src/tubedepth/flatten.py: the transforms of a payload into rows.
use yt_scrapper.Base.{
  ℕ, suc, String, Option, none, some, List, [], ◌∷◌, Time, same, ◌>>=◌, if◌then◌else◌,
}
use yt_scrapper.Json.{
  Json, null, text, array, object, Items, nil, item, Members, get_member, is_truthy,
}
use yt_scrapper.Flatten.Rows.{
  identifier_limit, comment_id_limit, country_limit, kind_limit, language_limit, Calendar,
  Observation, VideoSnapshot, ListingEntry, ChannelSnapshot, CommentRecord, TranscriptRecord,
  bounded, within, usable, required_text, integer, text_or_empty, or_empty_text, segments_in,
  as_utc,
}

-- `rows[comment_id] = row`, in a dictionary that is listed in the order of its insertions.
unfoldable pub put_comment : CommentRecord → List CommentRecord → List CommentRecord
put_comment row [] = row ∷ []
put_comment row (r ∷ rows) =
    if same r.comment_id row.comment_id then row ∷ rows else r ∷ put_comment row rows

module _ (calendar : Calendar) where
  open calendar use {instant_of, day_of}

  -- `_instant`
  unfoldable pub instant : Json → Option (Option Time)
  instant null = some none
  instant (text s) = instant_of s >>= λ r. some (some (as_utc r))
  instant _ = none

  -- `_day`
  unfoldable pub day : Json → Option (Option ℕ)
  day null = some none
  day (text s) = day_of s >>= λ d. some (some d)
  day _ = none

  unfoldable pub video_snapshot_row : Observation → Members → Option VideoSnapshot
  video_snapshot_row o payload = do
    video_id ← required_text payload "video_id" (some identifier_limit)
    title ← required_text payload "title" none
    channel_id ← bounded (get_member "channel_id" payload) identifier_limit
    duration_seconds ← integer (get_member "duration_seconds" payload)
    view_count ← integer (get_member "view_count" payload)
    like_count ← integer (get_member "like_count" payload)
    comment_count ← integer (get_member "comment_count" payload)
    published_at ← instant (get_member "published_at" payload)
    published_date ← day (get_member "published_date" payload)
    some (record {
      artifact_id = o.artifact_id;
      video_id = video_id;
      fetched_at = o.fetched_at;
      title = title;
      channel = get_member "channel" payload;
      channel_id = channel_id;
      duration_seconds = duration_seconds;
      view_count = view_count;
      like_count = like_count;
      comment_count = comment_count;
      published_at = published_at;
      published_date = published_date;
    })

  -- The row of an entry that names its video.
  unfoldable pub listing_entry_row : Observation → ℕ → String → Members → Option ListingEntry
  listing_entry_row o position video_id entry = do
    kind ← within o.kind kind_limit
    target ← within o.target identifier_limit
    video_id' ← within video_id identifier_limit
    view_count ← integer (get_member "view_count" entry)
    duration_seconds ← integer (get_member "duration_seconds" entry)
    channel_id ← bounded (get_member "channel_id" entry) identifier_limit
    published_at ← instant (get_member "published_at" entry)
    some (record {
      artifact_id = o.artifact_id;
      position = position;
      kind = kind;
      target = target;
      fetched_at = o.fetched_at;
      video_id = video_id';
      title = get_member "title" entry;
      view_count = view_count;
      duration_seconds = duration_seconds;
      channel = get_member "channel" entry;
      channel_id = channel_id;
      published_at = published_at;
    })

  -- One time round the loop over a listing: at most one row.
  abbrev named_entry : Observation → ℕ → Members → Option String → Option (Option ListingEntry)
  named_entry o position entry none = some none
  named_entry o position entry (some video_id) =
      listing_entry_row o position video_id entry >>= λ row. some (some row)

  abbrev listing_entry : Observation → ℕ → Json → Option (Option ListingEntry)
  listing_entry o position (object entry) =
      named_entry o position entry (usable (get_member "video_id" entry))
  listing_entry o position _ = some none

  abbrev with_row {ℓ} : {A : Type ℓ} → Option A → List A → List A
  with_row none rows = rows
  with_row (some row) rows = row ∷ rows

  unfoldable listing_loop : Observation → ℕ → Items → Option (List ListingEntry)
  listing_loop o position nil = some []
  listing_loop o position (item v rest) = do
    row ← listing_entry o position v
    rows ← listing_loop o (suc position) rest
    some (with_row row rows)

  abbrev listing_of : Observation → Json → Option (List ListingEntry)
  listing_of o (array entries) = listing_loop o 0 entries
  listing_of o _ = none

  unfoldable pub listing_entry_rows : Observation → Members → Option (List ListingEntry)
  unfolding listing_loop listing_entry_row
  listing_entry_rows o payload = listing_of o (get_member "videos" payload)

  unfoldable pub channel_snapshot_row : Observation → Members → Option ChannelSnapshot
  channel_snapshot_row o payload = do
    channel_id ← required_text payload "channel_id" (some identifier_limit)
    handle ← bounded (get_member "handle" payload) identifier_limit
    subscribers ← integer (get_member "subscriber_count_approximate" payload)
    view_count ← integer (get_member "view_count" payload)
    video_count ← integer (get_member "video_count" payload)
    country ← bounded (get_member "country" payload) country_limit
    some (record {
      artifact_id = o.artifact_id;
      channel_id = channel_id;
      fetched_at = o.fetched_at;
      name = get_member "name" payload;
      handle = handle;
      subscriber_count_approximate = subscribers;
      view_count = view_count;
      video_count = video_count;
      country = country;
    })

  -- The row of a comment that has an identifier.
  unfoldable pub comment_row : Observation → String → Members → Option CommentRecord
  comment_row o comment_id comment = do
    video_id ← within o.target identifier_limit
    comment_id' ← within comment_id comment_id_limit
    parent_id ← bounded (get_member "parent_id" comment) comment_id_limit
    author_id ← bounded (get_member "author_id" comment) identifier_limit
    like_count ← integer (get_member "like_count" comment)
    published_at ← instant (get_member "published_at" comment)
    some (record {
      video_id = video_id;
      comment_id = comment_id';
      parent_id = parent_id;
      text = text_or_empty (get_member "text" comment);
      author = get_member "author" comment;
      author_id = author_id;
      like_count = like_count;
      is_hearted_by_uploader = is_truthy (get_member "is_hearted_by_uploader" comment);
      is_pinned = is_truthy (get_member "is_pinned" comment);
      published_at = published_at;
      first_seen_at = o.fetched_at;
      last_seen_at = o.fetched_at;
    })

  abbrev pub named_comment :
      Observation → Members → Option String → List CommentRecord → Option (List CommentRecord)
  named_comment o comment none rows = some rows
  named_comment o comment (some comment_id) rows =
      comment_row o comment_id comment >>= λ row. some (put_comment row rows)

  abbrev pub comment_entry : Observation → Json → List CommentRecord → Option (List CommentRecord)
  comment_entry o (object comment) rows =
      named_comment o comment (usable (get_member "comment_id" comment)) rows
  comment_entry o _ rows = some rows

  unfoldable pub comment_loop :
      Observation → Items → List CommentRecord → Option (List CommentRecord)
  unfolding put_comment comment_row
  comment_loop o nil rows = some rows
  comment_loop o (item v rest) rows = comment_entry o v rows >>= comment_loop o rest

  abbrev pub comments_of : Observation → Json → Option (List CommentRecord)
  comments_of o (array comments) = comment_loop o comments []
  comments_of o _ = none

  unfoldable pub comment_rows : Observation → Members → Option (List CommentRecord)
  unfolding comment_loop
  comment_rows o payload = comments_of o (get_member "comments" payload)

  unfoldable pub transcript_row : Observation → Members → Option TranscriptRecord
  transcript_row o payload = do
    video_id ← within o.target identifier_limit
    language ← required_text payload "language" (some language_limit)
    some (record {
      video_id = video_id;
      language = language;
      is_automatic = is_truthy (get_member "is_automatic" payload);
      full_text = or_empty_text (get_member "full_text" payload);
      segment_count = segments_in (get_member "segments" payload);
      fetched_at = o.fetched_at;
    })
