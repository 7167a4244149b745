-- ===== src/Retention.antt =====
-- src/tubedepth/retention.py over src/tubedepth/payload_store.py: which artifact rows and payload
-- files a prune removes, and when it refuses to. The store is the list of its files.
pub mod Prune
use Prim.Native.Nat
use yt_scrapper.Errors.{Result, ok, err, configuration, text}
use yt_scrapper.Base.{
  ℕ, ◌+◌, ◌-◌, String, Bool, not, ◌&&◌, List, [], ◌∷◌, Time, ltb, leb, ◌==◌, same, contains, select,
  length, map, if◌then◌else◌,
}

-- A row of the `artifacts` table (models.py), as far as the pruning reads it.
pub record Artifact : Type 0 where
  pub identifier : String
  pub kind : String
  pub digest : String
  pub byte_count : ℕ
  pub fetched_at : Time

-- A payload file: its place in the layout, its age mark and its size on disk.
pub record StoredFile : Type 0 where
  pub kind : String
  pub digest : String
  pub modified_at : Time
  pub size : ℕ

pub record RetentionPolicy : Type 0 where
  pub maximum_age : Time
  pub maximum_bytes : ℕ
  pub orphan_grace : Time
  pub sweep_without_an_index : Bool

pub record RetentionOutcome : Type 0 where
  pub artifacts_removed : ℕ
  pub bytes_removed : ℕ
  pub total_bytes : ℕ
  pub over_ceiling : Bool
  pub orphans_removed : ℕ

pub record Store : Type 0 where
  pub rows : List Artifact
  pub files : List StoredFile

abbrev is_at : String → String → StoredFile → Bool
is_at kind digest f = same f.kind kind && same f.digest digest

-- `PayloadStore.delete`: the one file at a kind and a digest.
unfoldable pub delete : String → String → List StoredFile → List StoredFile
delete kind digest files = select (λ f. not (is_at kind digest f)) files

-- A file that no digest of the list names, and that is older than the grace period.
unfoldable pub is_orphan : RetentionPolicy → Time → List String → StoredFile → Bool
is_orphan policy now live f =
    not (contains f.digest live) && leb (f.modified_at + policy.orphan_grace) now

abbrev pub sum_sizes : List StoredFile → ℕ
sum_sizes [] = 0
sum_sizes (f ∷ fs) = f.size + sum_sizes fs

-- `_sweep_orphans`: the number of orphans, the bytes that remain, and the files that remain.
unfoldable pub sweep_orphans :
    RetentionPolicy → Time → List String → List StoredFile → ℕ × ℕ × List StoredFile
unfolding is_orphan
sweep_orphans policy now live files =
    let kept = select (λ f. not (is_orphan policy now live f)) files in
    (length (select (is_orphan policy now live) files), sum_sizes kept, kept)

-- `_refuse_to_sweep_without_an_index`
unfoldable pub refuses_without_an_index : RetentionPolicy → Store → Bool
refuses_without_an_index policy s =
    not policy.sweep_without_an_index && length s.rows == 0 && not (length s.files == 0)

-- `_refuse_to_sweep_disproportionately`, against the rows that the age pass leaves.
unfoldable pub refuses_disproportionately :
    RetentionPolicy → Time → ℕ → List String → List StoredFile → Bool
unfolding is_orphan
refuses_disproportionately policy now surviving referenced files =
    let orphans = length (select (is_orphan policy now referenced) files) in
    not policy.sweep_without_an_index && not (orphans == 0) && leb (Nat.max surviving 1) orphans

abbrev pub digests : List Artifact → List String
digests = map (λ a. a.digest)

-- The rows that are older than the policy's age.
unfoldable pub is_expiring : RetentionPolicy → Time → Artifact → Bool
is_expiring policy now a = ltb (a.fetched_at + policy.maximum_age) now

abbrev sum_bytes : List Artifact → ℕ
sum_bytes [] = 0
sum_bytes (a ∷ r) = a.byte_count + sum_bytes r

-- The loop over `doomed`, the places of expiring rows whose digest no live row has.
unfoldable pub delete_doomed : List String → List Artifact → List StoredFile → List StoredFile
unfolding delete
delete_doomed live [] files = files
delete_doomed live (a ∷ expiring) files =
    delete_doomed live expiring
      (if contains a.digest live then files else delete a.kind a.digest files)

-- The clock readings of one prune: for the cutoff, for the second refusal and for the sweep.
pub record Readings : Type 0 where
  pub cutoff_at : Time
  pub judged_at : Time
  pub swept_at : Time

abbrev pub live_rows : RetentionPolicy → Time → List Artifact → List Artifact
live_rows policy now = select (λ a. not (is_expiring policy now a))

abbrev pub expiring_rows : RetentionPolicy → Time → List Artifact → List Artifact
expiring_rows policy now = select (is_expiring policy now)

-- `prune` past its refusals: the rows are committed, then the files go, then the orphans.
unfoldable pub pruned : RetentionPolicy → Readings → Store → RetentionOutcome × Store
unfolding delete_doomed sweep_orphans is_expiring
pruned policy t s =
    let rows = live_rows policy t.cutoff_at s.rows in
    let expiring = expiring_rows policy t.cutoff_at s.rows in
    let files = delete_doomed (digests rows) expiring s.files in
    let (orphans, total, kept) = sweep_orphans policy t.swept_at (digests rows) files in
    (
      record {
        artifacts_removed = length expiring;
        bytes_removed = sum_bytes expiring;
        total_bytes = total;
        over_ceiling = ltb policy.maximum_bytes total;
        orphans_removed = orphans;
      },
      record { rows = rows; files = kept },
    )

-- `prune`. A refusal rolls back, so it leaves the store as it was.
unfoldable pub prune : RetentionPolicy → Readings → Store → Result (RetentionOutcome × Store)
prune policy t s =
    if refuses_without_an_index policy s
    then err configuration (text "the artifact index is empty")
    else if refuses_disproportionately policy t.judged_at
        (length s.rows - length (expiring_rows policy t.cutoff_at s.rows)) (digests s.rows) s.files
    then err configuration (text "the index is a partially transferred one")
    else ok (pruned policy t s)
