-- ===== src/Tests/Flattening.antt =====
-- The flattening at a concrete index of three artifacts.
use yt_scrapper.Base.{
  ◌++◌, ◌≡◌, ◌≢◌, refl, String, Bool, true, false, none, some, [], ◌∷◌, arith, eq_iff, same,
  if◌then◌else◌, All,
}
use yt_scrapper.Json.{Json, null, text, array, object, nil, item, Members, end, member, get_member}
use yt_scrapper.Artifacts.{Artifact}
use yt_scrapper.Flatten.Rows.{Calendar, CommentRecord, within, bounded, integer}
use yt_scrapper.Flatten.Transforms.{comment_rows, instant}
use yt_scrapper.Flatten.Tables.{Tables, Statement, execute, comment_key, has_twice}
use yt_scrapper.Flatten.Tables.Once.{FitsColumns, comment_rows_lem}
use yt_scrapper.Flatten.Work.{
  Payload, missing, failing, decoded, flatten, handler_in, observation_of,
}
use yt_scrapper.Flatten.Query.{Batch, read_batch}
use yt_scrapper.Keyset.{ordered as ordered_by, last_key as key_of_last}
use yt_scrapper.Flatten.Service.{Pass, finished, stopped, new_pass, run}
use yt_scrapper.Artifacts.{DistinctIds}
use yt_scrapper.Flatten.Service.Visits.{walk}
use yt_scrapper.Flatten.Service.Walk.{replicate, due, run-walk}
use yt_scrapper.Flatten.Service.Replay.{full_run, run_replay}
use yt_scrapper.Flatten.Service.Rehearsal.{run-dry, unwritten}
use yt_scrapper.Flatten.Service.Stop.{run-stopped}
use yt_scrapper.Tests.Collation.{earlier, code_point_order}

abbrev calendar : Calendar
calendar = record { instant_of = λ s. none; day_of = λ s. none }

abbrev refuses_nothing : Statement → Bool
refuses_nothing s = false

abbrev harvest : Artifact
harvest = record {
  identifier = "a1";
  kind = "video.comments";
  target = "dQw4w9WgXcQ";
  fingerprint = "f";
  schema_version = some "1";
  digest = "d1";
  byte_count = 9;
  fetched_at = 10;
  fresh_until = 20;
}

abbrev later_harvest : Artifact
later_harvest = record harvest { identifier = "a2"; digest = "d2"; fetched_at = 30 }

abbrev pruned_artifact : Artifact
pruned_artifact = record harvest { identifier = "a0"; digest = "gone"; fetched_at = 10 }

abbrev comment_saying : String → Json
comment_saying s = object (
    member "comments"
      (array (item (object (member "comment_id" (text "c") (member "text" (text s) end))) nil)) end)

abbrev read : String → Payload
read d =
    if same d "d1"
    then decoded (comment_saying "first")
    else if same d "d2"
    then decoded (comment_saying "edited")
    else missing

abbrev no_tables : Tables
no_tables = record {
  video_snapshots = [];
  listing_entries = [];
  channel_snapshots = [];
  comments = [];
  transcripts = [];
}

abbrev batch : Batch
batch = record {
  index = later_harvest ∷ harvest ∷ pruned_artifact ∷ [];
  now = 300000100;
  read = read;
}

abbrev early : Batch
early = record batch { index = harvest ∷ pruned_artifact ∷ [] }

batch-DistinctIds : DistinctIds batch.index
batch-DistinctIds = ground (arith, eq_iff "a2" "a1", eq_iff "a2" "a0", eq_iff "a1" "a0")

early-DistinctIds : DistinctIds early.index
early-DistinctIds = ground (arith, eq_iff "a1" "a0")

read-ne-failing : (d : String) → read d ≢ failing
read-ne-failing d = ground arith

-- Two at a time: the artifact with no payload comes first, then the harvests in order.
run-batch :
    run calendar refuses_nothing earlier 2 none false (replicate 4 batch) no_tables none
    ≡ finished (
        walk calendar refuses_nothing read
          (pruned_artifact ∷ harvest ∷ later_harvest ∷ [])
          (new_pass no_tables none))
unfolding run read_batch flatten handler_in comment_rows get_member within bounded integer instant
    execute
run-batch = refl

run-walk_example :
    run calendar refuses_nothing earlier 2 none false (replicate 4 batch) no_tables none
    ≡ finished (
        walk calendar refuses_nothing read
          (due calendar refuses_nothing earlier code_point_order batch none)
          (new_pass no_tables none))
unfolding ordered_by
run-walk_example =
    run-walk calendar refuses_nothing earlier code_point_order batch 1 4 no_tables none
      batch-DistinctIds read-ne-failing (omega arith)

everything-listed :
    let xs = due calendar refuses_nothing earlier code_point_order early none in
    let progress = (walk calendar refuses_nothing read xs (new_pass no_tables none)).progress in
    due calendar refuses_nothing earlier code_point_order batch none
    ≡ xs ++ due calendar refuses_nothing earlier code_point_order batch progress
unfolding ordered_by key_of_last
everything-listed = refl

run_replay_example :
    let again = full_run calendar refuses_nothing earlier code_point_order 1 in
    (p : Pass) × (q : Pass) × (r : Pass) × (again early no_tables none ≡ finished p)
    × (again batch p.tables p.progress ≡ finished q)
    × (again batch q.tables none ≡ finished r)
    × (r.tables ≡ q.tables)
run_replay_example =
    run_replay calendar refuses_nothing earlier code_point_order 1 early batch no_tables
      early-DistinctIds batch-DistinctIds refl read-ne-failing everything-listed

run-dry_example :
    run calendar refuses_nothing earlier 2 none true (batch ∷ batch ∷ []) no_tables none
    ≡ unwritten no_tables none
        (run calendar refuses_nothing earlier 2 none false (batch ∷ batch ∷ []) no_tables none)
run-dry_example =
    run-dry calendar refuses_nothing earlier 2 none (batch ∷ batch ∷ []) no_tables none

-- A payload file that is damaged.
abbrev damaged : Batch
damaged = record batch { read = λ d. if same d "d1" then failing else missing }

run-stopped_example :
    run calendar refuses_nothing earlier 2 none false (damaged ∷ damaged ∷ []) no_tables none
    ≡ stopped (new_pass no_tables none)
unfolding read_batch
run-stopped_example =
    run-stopped calendar refuses_nothing earlier 2 none false damaged (damaged ∷ []) no_tables none
      refl refl

-- A harvest that lists one comment twice.
abbrev comment : String → Json
comment s = object (member "comment_id" (text "c") (member "text" (text s) end))

abbrev harvested : Members
harvested =
    member "comments" (array (item (comment "first") (item null (item (comment "edited") nil)))) end

abbrev row : CommentRecord
row = record {
  video_id = "dQw4w9WgXcQ";
  comment_id = "c";
  parent_id = null;
  text = "edited";
  author = null;
  author_id = null;
  like_count = none;
  is_hearted_by_uploader = false;
  is_pinned = false;
  published_at = none;
  first_seen_at = 10;
  last_seen_at = 10;
}

comment_rows-harvested : comment_rows calendar (observation_of harvest) harvested ≡ some (row ∷ [])
unfolding comment_rows get_member within bounded integer instant
comment_rows-harvested = refl

comment_rows_lem_example : (has_twice comment_key (row ∷ []) ≡ false) × All FitsColumns (row ∷ [])
comment_rows_lem_example =
    comment_rows_lem calendar (observation_of harvest) harvested comment_rows-harvested
