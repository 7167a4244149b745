-- ===== src/Tests/Serving.antt =====
-- The routes: three jobs on pages of one, a batch of two videos, and one result.
use yt_scrapper.Base.{
  List, true, false, ◌>>=◌, ◌↔◌, ℕ, none, some, [], ◌∷◌, ◌≡◌, refl, arith, eq_iff, map, select,
}
use yt_scrapper.Keyset.{ordered, DistinctKeys}
use yt_scrapper.Keyset.Pages.{read_pages}
use yt_scrapper.Errors.{ok}
use yt_scrapper.Json.{text}
use yt_scrapper.Models.{Job, succeeded}
use yt_scrapper.Models
use yt_scrapper.Artifacts.{Artifact, Observation, add_observation}
use yt_scrapper.Payloads.{PayloadFile, put, read, write_file}
use yt_scrapper.Registry.{get, find}
use yt_scrapper.Lifecycle.{Timely}
use yt_scrapper.Collection.State.{Library}
use yt_scrapper.Collection.Service.{collect}
use yt_scrapper.Api.Submit.{JobSubmission, BatchSubmission, Draw, submit_batch}
use yt_scrapper.Api.Queueing.{submit_batch-Reach}
use yt_scrapper.Api.Results.{
  ArtifactPayloadView, newest, oldest, has_digest, current_source, refuse_withdrawn_payload,
  read_artifact, read_result, fields_of,
}
use yt_scrapper.Api.Doors.{
  Stands, IsResult, read_artifact-Stands, read_result-ok, read_result-collected,
}
use yt_scrapper.Tests.Collecting.{outside, registry, empty}
use yt_scrapper.Api.Cursors.{with_offset}
use yt_scrapper.Api.Listing.{
  aware_time_bound, given, is_newer, JobFilter, is_listed, job_view, job_key, list_jobs,
}
use yt_scrapper.Api.Reading.{read_pages-list_jobs}
use yt_scrapper.Tests.Collation.{earlier, code_point_order}
use yt_scrapper.Tests.Encoding.{strokes, codec, codec_laws}
use yt_scrapper.Tests.Samples.{table, job, fixed, metadata}

-- Everything of one kind since an instant.
abbrev job_filter : JobFilter
job_filter = record {
  state = none;
  kind = some "video.metadata";
  target = some "";
  since = some (with_offset 3);
  until = none;
}

distinct_keys : DistinctKeys job_key table
distinct_keys = ground (arith, eq_iff "a" "b", eq_iff "a" "c", eq_iff "b" "c")

read_pages-list_jobs_example :
    read_pages (λ s. given (list_jobs codec earlier job_filter 1 s table)) 4 none
    ≡ some (
        map job_view (
          ordered job_key
            (is_newer codec earlier)
            (select (is_listed job_filter (some 3) none) table)))
unfolding is_listed aware_time_bound
read_pages-list_jobs_example =
    read_pages-list_jobs codec codec_laws earlier code_point_order job_filter (some 3) none 0 4
      table distinct_keys refl refl (omega arith)

abbrev draw : ℕ → Draw
draw n = record { identifier = strokes n; scheduled_at = 50; created_at = 50 }

abbrev batch : BatchSubmission
batch = record {
  kind = "video.metadata";
  targets = "v" ∷ "u" ∷ [];
  refresh = false;
  webhook_url = none;
}

-- The library that has one of the two.
abbrev held : Library
held = (collect outside registry true 1 true "video.metadata" "v" empty).1

submit_batch-Reach_example :
    Timely fixed table (submit_batch outside registry draw none batch table held).1
submit_batch-Reach_example = submit_batch-Reach outside registry draw none fixed batch table held

abbrev submission : JobSubmission
submission = record { kind = "video.metadata"; target = "v"; refresh = false; webhook_url = none }

abbrev observed : Observation
observed = record {
  kind = "video.metadata";
  target = "v";
  fingerprint = "f";
  digest = "views";
  byte_count = 5;
  freshness = 100;
  schema_version = "1";
}

abbrev settled_job : Job
settled_job = record job { state = succeeded; payload_digest = some "views" }

read_result-collected_example :
    read_result registry
      (put (λ s. s) "video.metadata" "views" []).1
      (add_observation "x" 9 observed []).1
      "a"
      (settled_job ∷ [])
    ≡ ok "views"
unfolding get find Models.get
read_result-collected_example =
    read_result-collected (λ s. s) "views" (λ b h. h) registry metadata [] [] observed "x" "a" 9
      (settled_job ∷ []) settled_job refl refl refl refl tt tt refl refl refl

-- One observation, and its file.
abbrev rows : List Artifact
rows = (add_observation "x" 9 observed []).1

abbrev files : List PayloadFile
files = (put (λ s. s) "video.metadata" "views" []).1

read_result-ok_example :
    (read_result registry files rows "a" (settled_job ∷ []) ≡ ok "views")
    ↔ IsResult registry files rows "a" (settled_job ∷ []) "views"
read_result-ok_example = read_result-ok registry files rows "a" (settled_job ∷ []) "views"

abbrev view : ArtifactPayloadView
view = record {
  digest = "views";
  kind = "video.metadata";
  target = "v";
  observations = 1;
  first_fetched_at = 9;
  fetched_at = 9;
  schema_version = some "1";
  current_schema_version = some "1";
  payload_fields = [];
  current_fields = [];
  payload = text "views";
}

read_artifact-Stands_example :
    (a : Artifact) × (newest (has_digest "views") rows ≡ some a)
    × Stands registry a.kind a.schema_version
    × ("video.metadata" ≡ a.kind)
    × (some "1" ≡ a.schema_version)
    × ((read a.digest files >>= λ s. some (text s)) ≡ some (text "views"))
unfolding read_artifact get find newest current_source refuse_withdrawn_payload oldest read put
    add_observation write_file fields_of
read_artifact-Stands_example =
    read_artifact-Stands (λ s. some (text s)) (λ s. []) registry files rows "views" {view = view}
      refl
