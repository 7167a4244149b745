-- ===== src/Flatten/Tables/Held.antt =====
-- What a statement has written: each of its rows is held by the table, and stays held.
use yt_scrapper.Base.{true, false, All, All-mono, arith, ◌≡◌, refl}
use yt_scrapper.Models.Rows.{same_self}
use yt_scrapper.Keyed.{KeyedLaws, holds, upsert_all-held, holds-upsert_all, holds-upsert_all_self}
use yt_scrapper.Flatten.Rows.{CommentRecord, TranscriptRecord}
use yt_scrapper.Flatten.Tables.{
  Tables, Statement, insert_video_snapshots, insert_listing_entries, insert_channel_snapshots,
  insert_comments, insert_transcripts, video_key, listing_key, channel_key, comment_key,
  transcript_key, write, newer_comment, newer_transcript,
}

video_laws : KeyedLaws video_key
video_laws = record {
  key_refl = λ a. same_self a.artifact_id;
  covers_refl = λ a. refl;
  merge_key = λ e r x. refl;
  merge_covers = λ e r. refl;
  merge_keeps = λ e r x p q. refl;
}

channel_laws : KeyedLaws channel_key
channel_laws = record {
  key_refl = λ a. same_self a.artifact_id;
  covers_refl = λ a. refl;
  merge_key = λ e r x. refl;
  merge_covers = λ e r. refl;
  merge_keeps = λ e r x p q. refl;
}

listing_laws : KeyedLaws listing_key
listing_laws = record {
  key_refl = λ a. ground (arith, same_self a.artifact_id);
  covers_refl = λ a. refl;
  merge_key = λ e r x. refl;
  merge_covers = λ e r. refl;
  merge_keeps = λ e r x p q. refl;
}

comment-merge_keeps :
    (e r x : CommentRecord)
    → comment_key.covers e r ≡ false
    → comment_key.covers e x ≡ true
    → comment_key.covers (newer_comment e r) x ≡ true
comment-merge_keeps e r x p q = ground arith

comment_laws : KeyedLaws comment_key
comment_laws = record {
  key_refl = λ a. rw (same_self a.video_id, same_self a.comment_id);
  covers_refl = λ a. ground arith;
  merge_key = λ e r x. refl;
  merge_covers = λ e r. ground arith;
  merge_keeps = comment-merge_keeps;
}

transcript-merge_keeps :
    (e r x : TranscriptRecord)
    → transcript_key.covers e r ≡ false
    → transcript_key.covers e x ≡ true
    → transcript_key.covers (newer_transcript e r) x ≡ true
transcript-merge_keeps e r x p q = ground arith

transcript_laws : KeyedLaws transcript_key
transcript_laws = record {
  key_refl = λ a. rw (same_self a.video_id, same_self a.language);
  covers_refl = λ a. ground arith;
  merge_key = λ e r x. refl;
  merge_covers = λ e r. ground arith;
  merge_keeps = transcript-merge_keeps;
}

-- Every row of a statement is held by its table.
abbrev pub Held : Statement → Tables → Type 0
Held (insert_video_snapshots rows) t = All (λ r. holds video_key r t.video_snapshots ≡ true) rows
Held (insert_listing_entries rows) t = All (λ r. holds listing_key r t.listing_entries ≡ true) rows
Held (insert_channel_snapshots rows) t =
    All (λ r. holds channel_key r t.channel_snapshots ≡ true) rows
Held (insert_comments rows) t = All (λ r. holds comment_key r t.comments ≡ true) rows
Held (insert_transcripts rows) t = All (λ r. holds transcript_key r t.transcripts ≡ true) rows

pub write-Held : (s : Statement) (t : Tables) → Held s t → write s t ≡ t
unfolding write
write-Held (insert_video_snapshots rows) t h =
    rw (upsert_all-held video_key rows t.video_snapshots h)
write-Held (insert_listing_entries rows) t h =
    rw (upsert_all-held listing_key rows t.listing_entries h)
write-Held (insert_channel_snapshots rows) t h =
    rw (upsert_all-held channel_key rows t.channel_snapshots h)
write-Held (insert_comments rows) t h = rw (upsert_all-held comment_key rows t.comments h)
write-Held (insert_transcripts rows) t h = rw (upsert_all-held transcript_key rows t.transcripts h)

-- What is held stays held, whatever is written.
pub Held-write : (s u : Statement) (t : Tables) → Held s t → Held s (write u t)
unfolding write
Held-write (insert_video_snapshots rows) (insert_video_snapshots us) t h =
    All-mono rows (λ r. holds-upsert_all video_key video_laws r us t.video_snapshots) h
Held-write (insert_listing_entries rows) (insert_listing_entries us) t h =
    All-mono rows (λ r. holds-upsert_all listing_key listing_laws r us t.listing_entries) h
Held-write (insert_channel_snapshots rows) (insert_channel_snapshots us) t h =
    All-mono rows (λ r. holds-upsert_all channel_key channel_laws r us t.channel_snapshots) h
Held-write (insert_comments rows) (insert_comments us) t h =
    All-mono rows (λ r. holds-upsert_all comment_key comment_laws r us t.comments) h
Held-write (insert_transcripts rows) (insert_transcripts us) t h =
    All-mono rows (λ r. holds-upsert_all transcript_key transcript_laws r us t.transcripts) h
Held-write s u t h = h

pub Held-write_self : (s : Statement) (t : Tables) → Held s (write s t)
unfolding write
Held-write_self (insert_video_snapshots rows) t =
    holds-upsert_all_self video_key video_laws rows t.video_snapshots
Held-write_self (insert_listing_entries rows) t =
    holds-upsert_all_self listing_key listing_laws rows t.listing_entries
Held-write_self (insert_channel_snapshots rows) t =
    holds-upsert_all_self channel_key channel_laws rows t.channel_snapshots
Held-write_self (insert_comments rows) t =
    holds-upsert_all_self comment_key comment_laws rows t.comments
Held-write_self (insert_transcripts rows) t =
    holds-upsert_all_self transcript_key transcript_laws rows t.transcripts
