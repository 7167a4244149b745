-- ===== src/Flatten/Tables.antt =====
-- The flattened tables, the statements that write them, and what a statement does. Which statements
-- the database refuses by their values is an argument.
pub mod Held
pub mod Replay
pub mod Once
use yt_scrapper.Base.{
  Bool, true, false, Option, none, some, List, [], ◌∷◌, leb, same, ◌&&◌, ◌||◌, ◌==◌, any, ◌>>=◌,
  if◌then◌else◌,
}
use yt_scrapper.Keyed.{Keyed, upsert_all}
use yt_scrapper.Flatten.Rows.{
  VideoSnapshot, ListingEntry, ChannelSnapshot, CommentRecord, TranscriptRecord,
}

pub record Tables : Type 0 where
  pub video_snapshots : List VideoSnapshot
  pub listing_entries : List ListingEntry
  pub channel_snapshots : List ChannelSnapshot
  pub comments : List CommentRecord
  pub transcripts : List TranscriptRecord

pub data Statement : Type 0 where
  insert_video_snapshots : List VideoSnapshot → Statement
  insert_listing_entries : List ListingEntry → Statement
  insert_channel_snapshots : List ChannelSnapshot → Statement
  insert_comments : List CommentRecord → Statement
  insert_transcripts : List TranscriptRecord → Statement

-- `on_conflict_do_nothing(index_elements=["artifact_id"])`
abbrev pub video_key : Keyed VideoSnapshot
video_key = record {
  same_key = λ e r. same e.artifact_id r.artifact_id;
  covers = λ e r. true;
  merge = λ e r. e;
}

abbrev pub listing_key : Keyed ListingEntry
listing_key = record {
  same_key = λ e r. same e.artifact_id r.artifact_id && e.position == r.position;
  covers = λ e r. true;
  merge = λ e r. e;
}

abbrev pub channel_key : Keyed ChannelSnapshot
channel_key = record {
  same_key = λ e r. same e.artifact_id r.artifact_id;
  covers = λ e r. true;
  merge = λ e r. e;
}

-- The SET list of `_upsert_comments`.
abbrev pub newer_comment : CommentRecord → CommentRecord → CommentRecord
newer_comment e r = record e {
  text = r.text;
  author = r.author;
  author_id = r.author_id;
  like_count = r.like_count;
  is_hearted_by_uploader = r.is_hearted_by_uploader;
  is_pinned = r.is_pinned;
  published_at = r.published_at;
  last_seen_at = r.last_seen_at;
}

-- `_upsert_comments`, whose WHERE is `excluded.last_seen_at > last_seen_at`.
abbrev pub comment_key : Keyed CommentRecord
comment_key = record {
  same_key = λ e r. same e.video_id r.video_id && same e.comment_id r.comment_id;
  covers = λ e r. leb r.last_seen_at e.last_seen_at;
  merge = newer_comment;
}

abbrev pub newer_transcript : TranscriptRecord → TranscriptRecord → TranscriptRecord
newer_transcript e r = record e {
  is_automatic = r.is_automatic;
  full_text = r.full_text;
  segment_count = r.segment_count;
  fetched_at = r.fetched_at;
}

-- `_upsert_transcripts`
abbrev pub transcript_key : Keyed TranscriptRecord
transcript_key = record {
  same_key = λ e r. same e.video_id r.video_id && same e.language r.language;
  covers = λ e r. leb r.fetched_at e.fetched_at;
  merge = newer_transcript;
}

-- An `ON CONFLICT DO UPDATE` that would touch one row twice is refused.
abbrev pub has_twice {ℓ} : {A : Type ℓ} → Keyed A → List A → Bool
has_twice k [] = false
has_twice k (r ∷ rs) = any (λ s. k.same_key r s) rs || has_twice k rs

abbrev pub touches_twice : Statement → Bool
touches_twice (insert_comments rows) = has_twice comment_key rows
touches_twice (insert_transcripts rows) = has_twice transcript_key rows
touches_twice _ = false

unfoldable pub write : Statement → Tables → Tables
write (insert_video_snapshots rows) t = record t {
  video_snapshots = upsert_all video_key rows t.video_snapshots;
}
write (insert_listing_entries rows) t = record t {
  listing_entries = upsert_all listing_key rows t.listing_entries;
}
write (insert_channel_snapshots rows) t = record t {
  channel_snapshots = upsert_all channel_key rows t.channel_snapshots;
}
write (insert_comments rows) t = record t { comments = upsert_all comment_key rows t.comments }
write (insert_transcripts rows) t = record t {
  transcripts = upsert_all transcript_key rows t.transcripts;
}

-- `_execute`: the statements of one artifact in a savepoint. A refusal undoes all of them.
unfoldable pub execute : (Statement → Bool) → List Statement → Tables → Option Tables
unfolding write
execute refuses [] t = some t
execute refuses (s ∷ ss) t =
    if touches_twice s || refuses s then none else execute refuses ss (write s t)
