-- ===== src/Tests/Stores.antt =====
-- Pruning, callbacks and the health of a source at concrete inputs.
use yt_scrapper.Base.{ℕ, ◌≡◌, refl, String, Bool, true, false, some, List, [], ◌∷◌}
use yt_scrapper.Errors.{ok, text, domain, extraction, not_found}
use yt_scrapper.Retention.{
  Artifact, StoredFile, RetentionPolicy, RetentionOutcome, Store, Readings, prune, pruned,
  refuses_without_an_index, refuses_disproportionately,
}
use yt_scrapper.Retention.Prune.{prune-ok, IsPruned}
use yt_scrapper.Webhooks.{Announcement}
use yt_scrapper.Health.Streaks.{Attempt, failures}
use yt_scrapper.Artifacts.{Observation, observed_row}
use yt_scrapper.Artifacts

abbrev old_row : Artifact
old_row = record {
  identifier = "1";
  kind = "video.metadata";
  digest = "old";
  byte_count = 10;
  fetched_at = 0;
}

abbrev new_row : Artifact
new_row = record old_row { identifier = "2"; digest = "new"; byte_count = 20; fetched_at = 90 }

abbrev file : String → ℕ → StoredFile
file digest size = record { kind = "video.metadata"; digest = digest; modified_at = 0; size = size }

abbrev policy : RetentionPolicy
policy = record {
  maximum_age = 50;
  maximum_bytes = 15;
  orphan_grace = 5;
  sweep_without_an_index = true;
}

abbrev readings : Readings
readings = record { cutoff_at = 100; judged_at = 100; swept_at = 100 }

abbrev store : Store
store = record {
  rows = old_row ∷ new_row ∷ [];
  files = file "old" 10 ∷ file "new" 20 ∷ file "stray" 3 ∷ [];
}

abbrev outcome : RetentionOutcome
outcome = record {
  artifacts_removed = 1;
  bytes_removed = 10;
  total_bytes = 20;
  over_ceiling = true;
  orphans_removed = 1;
}

abbrev kept : Store
kept = record { rows = new_row ∷ []; files = file "new" 20 ∷ [] }

prune-store : prune policy readings store ≡ ok (outcome, kept)
unfolding prune pruned refuses_without_an_index refuses_disproportionately
prune-store = refl

prune-ok_example : IsPruned policy readings store (outcome, kept)
prune-ok_example = prune-ok policy readings store {outcome = outcome} {s' = kept} prune-store

abbrev refuses_all : Announcement → Bool
refuses_all a = false

-- Two refused payloads, and between them a target that does not exist, which does not count.
abbrev attempts : List Attempt
attempts =
    record { succeeded = false; error = some (domain extraction (text "x")); at = 1 }
    ∷ record { succeeded = false; error = some (domain not_found (text "y")); at = 2 }
    ∷ record { succeeded = false; error = some (domain extraction (text "z")); at = 3 }
    ∷ []

failures-attempts : failures attempts ≡ 2
failures-attempts = refl

abbrev observation : Observation
observation = record {
  kind = "video.metadata";
  target = "dQw4w9WgXcQ";
  fingerprint = "f";
  digest = "new";
  byte_count = 20;
  freshness = 50;
  schema_version = "1";
}

-- The answer that was collected at 10, before the one at 40.
abbrev index : List Artifacts.Artifact
index = observed_row "1" 10 observation ∷ []
