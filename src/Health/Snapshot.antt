-- ===== src/Health/Snapshot.antt =====
-- src/tubedepth/health.py, `snapshot`: what the dashboard is told of each source.
use yt_scrapper.Base.{
  ℕ, String, ◌||◌, Option, none, some, is_some, List, [], ◌∷◌, map, Time, contains, arith, ◌≡◌,
  refl, eq_iff, if◌then◌else◌,
}
use yt_scrapper.Errors.{Message}
use yt_scrapper.Models.{ErrorCode}
use yt_scrapper.Registry.{Registry, find, kinds}
use yt_scrapper.Registry.Laws.{contains-insert, contains-kinds}
use yt_scrapper.Health.{SourceHealth, find_source, Status, status}
use yt_scrapper.Texts.{insert}

record HealthEntry : Type 0 where
  kind : String
  status : Status
  consecutive_failures : ℕ
  last_success_at : Option Time
  last_failure_at : Option Time
  last_error_code : Option ErrorCode
  last_error_message : Option Message

-- The entry of a kind; without a row it is one that was never tried.
abbrev entry : Time → Time → String → Option SourceHealth → HealthEntry
entry stale_after now k none = record {
  kind = k;
  status = status stale_after now none;
  consecutive_failures = 0;
  last_success_at = none;
  last_failure_at = none;
  last_error_code = none;
  last_error_message = none;
}
entry stale_after now k (some r) = record {
  kind = k;
  status = status stale_after now (some r);
  consecutive_failures = r.consecutive_failures;
  last_success_at = r.last_success_at;
  last_failure_at = r.last_failure_at;
  last_error_code = r.last_error_code;
  last_error_message = r.last_error_message;
}

-- `sorted({*kinds, *rows})`
unfoldable with_kinds : List String → List String → List String
with_kinds ks [] = ks
with_kinds ks (j ∷ js) =
    let rest = with_kinds ks js in if contains j rest then rest else insert j rest

unfoldable snapshot : Time → Time → Registry → List SourceHealth → List HealthEntry
unfolding with_kinds
snapshot stale_after now registry rows =
    map (λ k. entry stale_after now k (find_source k rows))
      (with_kinds (kinds registry) (map (λ r. r.kind) rows))

contains-with_kinds :
    (k : String) (ks js : List String)
    → contains k (with_kinds ks js) ≡ (contains k ks || contains k js)
unfolding with_kinds
contains-with_kinds k ks [] = ground arith
contains-with_kinds k ks (j ∷ js) =
    ground (arith, eq_iff j k, contains-insert k j (with_kinds ks js), contains-with_kinds k ks js)

contains-recorded :
    (k : String) (rows : List SourceHealth)
    → contains k (map (λ r. r.kind) rows) ≡ is_some (find_source k rows)
unfolding find_source
contains-recorded k [] = refl
contains-recorded k (r ∷ rows) = ground (arith, contains-recorded k rows)

kind-entry :
    (stale_after now : Time) (k : String) (o : Option SourceHealth)
    → (entry stale_after now k o).kind ≡ k
kind-entry stale_after now k none = refl
kind-entry stale_after now k (some r) = refl

map-entry :
    (stale_after now : Time) (rows : List SourceHealth) (ks : List String)
    → map (λ e. e.kind) (map (λ k. entry stale_after now k (find_source k rows)) ks) ≡ ks
map-entry stale_after now rows [] = refl
map-entry stale_after now rows (k ∷ ks) =
    cc (kind-entry stale_after now k (find_source k rows), map-entry stale_after now rows ks)

-- The snapshot has an entry for every kind that is registered and for every kind that has a row,
-- and for no other.
contains-snapshot :
    (stale_after now : Time) (registry : Registry) (rows : List SourceHealth) (k : String)
    → contains k (map (λ e. e.kind) (snapshot stale_after now registry rows))
      ≡ (is_some (find k registry) || is_some (find_source k rows))
unfolding snapshot
contains-snapshot stale_after now registry rows k =
    let ks = with_kinds (kinds registry) (map (λ r. r.kind) rows) in
    rw (
      map-entry stale_after now rows ks,
      contains-with_kinds k (kinds registry) (map (λ r. r.kind) rows),
      contains-kinds k registry,
      contains-recorded k rows,
    )
