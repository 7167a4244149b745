-- ===== src/Artifacts.antt =====
-- src/tubedepth/repositories.py, `ArtifactRepository`: the index of what was collected.
pub mod Fresh
use yt_scrapper.Base.{
  ℕ, ◌+◌, String, Bool, Option, none, some, List, [], ◌∷◌, ◌++◌, Time, ltb, leb, ◌&&◌, same, select,
  length, if◌then◌else◌,
}
use yt_scrapper.Keyset.{DistinctKeys}

-- A row of the `artifacts` table (models.py). Rows from before the version was recorded have none.
pub record Artifact : Type 0 where
  pub identifier : String
  pub kind : String
  pub target : String
  pub fingerprint : String
  pub schema_version : Option String
  pub digest : String
  pub byte_count : ℕ
  pub fetched_at : Time
  pub fresh_until : Time

-- No identifier occurs twice.
abbrev pub DistinctIds : List Artifact → Type 0
DistinctIds = DistinctKeys (λ a. (a.fetched_at, a.identifier))

-- What `record` is called with.
pub record Observation : Type 0 where
  pub kind : String
  pub target : String
  pub fingerprint : String
  pub digest : String
  pub byte_count : ℕ
  pub freshness : Time
  pub schema_version : String

abbrev pub observed_row : String → Time → Observation → Artifact
observed_row identifier now o = record {
  identifier = identifier;
  kind = o.kind;
  target = o.target;
  fingerprint = o.fingerprint;
  schema_version = some o.schema_version;
  digest = o.digest;
  byte_count = o.byte_count;
  fetched_at = now;
  fresh_until = now + o.freshness;
}

-- `record`, with the new row's identifier and the clock's reading. Rows are only ever added.
unfoldable pub add_observation :
    String → Time → Observation → List Artifact → Artifact × List Artifact
add_observation identifier now o rows =
    let row = observed_row identifier now o in (row, rows ++ row ∷ [])

-- The WHERE of `fresh`.
unfoldable pub answers : String → Time → Artifact → Bool
answers key now a = same a.fingerprint key && ltb now a.fresh_until

unfoldable pub newer_of : Artifact → Option Artifact → Artifact
newer_of a none = a
newer_of a (some b) = if leb b.fetched_at a.fetched_at then a else b

-- `ORDER BY fetched_at DESC LIMIT 1`. Of two rows that tie, the one that the table lists first.
unfoldable pub fresh : String → Time → List Artifact → Option Artifact
unfolding answers newer_of
fresh key now [] = none
fresh key now (a ∷ rows) =
    let rest = fresh key now rows in if answers key now a then some (newer_of a rest) else rest

unfoldable pub count_for : String → List Artifact → ℕ
count_for key rows = length (select (λ a. same a.fingerprint key) rows)
