-- ===== src/Versions.antt =====
-- src/tubedepth/schema_versions.py: which version of its normaliser wrote a payload, for rows that
-- were written before the version was recorded.
pub mod Backfill
use yt_scrapper.Base.{
  ℕ, zero, suc, ◌+◌, String, Bool, not, Option, none, some, is_some, List, [], ◌∷◌, ◌++◌, map,
  length, select, take, drop, same, if◌then◌else◌,
}
use yt_scrapper.Errors.{ok, err}
use yt_scrapper.Registry.{Registry, get}
use yt_scrapper.Artifacts.{Artifact}
use yt_scrapper.Collection.State.{Question}
use yt_scrapper.Flatten.Service.{count_kind}

-- `PREVIOUS_VERSIONS`
abbrev previous_versions : List (String × List String)
previous_versions = ("channel.about", "1" ∷ []) ∷ []

unfoldable versions_of : String → List (String × List String) → List String
versions_of kind [] = []
versions_of kind ((k, versions) ∷ rest) = if same k kind then versions else versions_of kind rest

-- `BATCH`
abbrev pub batch_size : ℕ
batch_size = 500

pub record BackfillOutcome : Type 0 where
  pub attributed : ℕ
  pub unattributed : List (String × ℕ)
  pub scanned : ℕ

abbrev pub is_pending : Artifact → Bool
is_pending a = not (is_some a.schema_version)

abbrev pub sum_counts : List (String × ℕ) → ℕ
sum_counts [] = 0
sum_counts ((k, n) ∷ counts) = n + sum_counts counts

-- The row of an identifier, stamped.
abbrev pub stamped : String × String → Artifact → Artifact
stamped (k, version) a =
    if same a.identifier k then record a { schema_version = some version } else a

unfoldable pub stamp_all : List (String × String) → List Artifact → List Artifact
stamp_all [] rows = rows
stamp_all (r ∷ resolved) rows = stamp_all resolved (map (stamped r) rows)

-- The transactions, each of as many rows as a batch has; the fuel is the number of rows.
unfoldable pub write_batches : ℕ → List (String × String) → List Artifact → List Artifact
unfolding stamp_all
write_batches zero resolved rows = rows
write_batches (suc n) [] rows = rows
write_batches (suc n) (r ∷ resolved) rows =
    write_batches n (drop batch_size (r ∷ resolved))
      (stamp_all (take batch_size (r ∷ resolved)) rows)

module _ (hash : Question → String) (registry : Registry) where
  -- A kind that this build no longer has is none.
  unfoldable pub candidates : String → List String
  unfolding versions_of
  candidates kind = elim (get kind registry) [
    | ok source ↦ versions_of kind previous_versions ++ source.schema_version ∷ []
    | err c m ↦ []
  ]

  -- The fingerprint without parameters.
  abbrev question_at : Artifact → String → Question
  question_at a version = record {
    kind = a.kind;
    target = a.target;
    schema_version = version;
    parameters = [];
  }

  unfoldable first_match : Artifact → List String → Option String
  first_match a [] = none
  first_match a (version ∷ versions) =
      if same a.fingerprint (hash (question_at a version))
      then some version
      else first_match a versions

  -- `_attribute`
  unfoldable pub attribute : Artifact → Option String
  unfolding candidates first_match
  attribute a = first_match a (candidates a.kind)

  abbrev with_resolved : Artifact → Option String → List (String × String) → List (String × String)
  with_resolved a none resolved = resolved
  with_resolved a (some version) resolved = (a.identifier, version) ∷ resolved

  -- `resolved`, whose keys are the identifiers of rows.
  unfoldable pub resolve : List Artifact → List (String × String)
  unfolding attribute
  resolve [] = []
  resolve (a ∷ pending) = with_resolved a (attribute a) (resolve pending)

  abbrev with_unattributed : Artifact → Option String → List (String × ℕ) → List (String × ℕ)
  with_unattributed a none counts = count_kind a.kind counts
  with_unattributed a (some version) counts = counts

  unfoldable pub unattributed_of : List Artifact → List (String × ℕ) → List (String × ℕ)
  unfolding attribute count_kind
  unattributed_of [] counts = counts
  unattributed_of (a ∷ pending) counts =
      unattributed_of pending (with_unattributed a (attribute a) counts)

  -- `run`
  unfoldable pub backfill : Bool → List Artifact → BackfillOutcome × List Artifact
  unfolding resolve unattributed_of write_batches
  backfill dry_run rows =
      let pending = select is_pending rows in
      let resolved = resolve pending in
      (
        record {
          attributed = length resolved;
          unattributed = unattributed_of pending [];
          scanned = length pending;
        },
        if dry_run then rows else write_batches (length resolved) resolved rows,
      )
