-- ===== src/Transfer.antt =====
-- src/tubedepth/transfer.py: the rows of every table, carried from one database to another.
pub mod Rows
pub mod Copies
use yt_scrapper.Base.{
  ℕ, zero, suc, ◌+◌, String, Option, none, some, List, [], ◌∷◌, ◌==◌, length, take, drop, same,
  if◌then◌else◌,
}
use yt_scrapper.Errors.{
  Result, ok, err, and_then, configuration, schema_gap, holds_rows, partly_copied, not_arrived,
}

-- The rows of each table, by its name.
abbrev pub Tables : Type 0 → Type 0
Tables Row = String → List Row

-- An end of the transfer: what its placement is verified as, and what its schema lacks.
pub record Database (Row : Type 0) : Type 0 where
  pub placement : Result (Unit {0})
  pub gaps : List String
  pub tables : Tables Row

-- `TransferOutcome`
abbrev pub TransferOutcome : Type 0
TransferOutcome = List (String × ℕ)

abbrev pub batch_size : ℕ
batch_size = 500

-- `verify_source_schema`
unfoldable pub verify_source_schema : {Row : Type 0} → Database Row → Result (Unit {0})
verify_source_schema source = elim source.gaps [
  | [] ↦ ok tt
  | gap ∷ gaps ↦ err configuration (schema_gap (gap ∷ gaps))
]

abbrev pub refused_if_filled : String → ℕ → Result (Unit {0}) → Result (Unit {0})
refused_if_filled name zero rest = rest
refused_if_filled name (suc n) rest = err configuration (holds_rows (suc n) name)

module _ {Row : Type 0} where
  -- `for start in range(0, len(values), BATCH)`: no more batches than there are rows.
  unfoldable pub batches : ℕ → List Row → List (List Row)
  batches zero rows = []
  batches (suc n) [] = []
  batches (suc n) (r ∷ rows) = take batch_size (r ∷ rows) ∷ batches n (drop batch_size (r ∷ rows))

  unfoldable pub put_table : String → List Row → Tables Row → Tables Row
  put_table name rows tables n = if same name n then rows else tables n

  -- `_refuse_a_target_that_already_holds_rows`
  unfoldable pub refuse_a_filled_target : List String → Tables Row → Result (Unit {0})
  refuse_a_filled_target [] target = ok tt
  refuse_a_filled_target (name ∷ names) target =
      refused_if_filled name (length (target name)) (refuse_a_filled_target names target)

-- What a commit of a batch leaves in a table of the target, or none if it raises.
module _ {Row : Type 0} (commit : String → List Row → List Row → Option (List Row)) where
  abbrev pub after_commit :
      String
      → ℕ
      → ℕ
      → List Row
      → Option (List Row)
      → (List Row → Result ℕ × List Row)
      → Result ℕ × List Row
  after_commit name total written rows none rest =
      (err configuration (partly_copied name written total), rows)
  after_commit name total written rows (some rows') rest = rest rows'

  -- The loop of `_copy_table`: what it has written, and the rows of the target.
  unfoldable pub write_each : String → ℕ → List (List Row) → ℕ → List Row → Result ℕ × List Row
  write_each name total [] written rows = (ok written, rows)
  write_each name total (b ∷ bs) written rows =
      after_commit name total written rows (commit name rows b)
        (write_each name total bs (written + length b))

  -- The count of the target, after the last commit.
  abbrev pub counted : String → List Row → Result ℕ × List Row → Result ℕ × List Row
  counted name values (ok written, rows) =
      if length rows == length values
      then (ok (length values), rows)
      else (err configuration (not_arrived name (length values) (length rows)), rows)
  counted name values (err c m, rows) = (err c m, rows)

  -- `_copy_table`
  unfoldable pub copy_table : String → List Row → List Row → Result ℕ × List Row
  unfolding write_each batches
  copy_table name values rows =
      counted name values (write_each name (length values) (batches (length values) values) 0 rows)

  abbrev pub with_count :
      String → ℕ → Result TransferOutcome × Tables Row → Result TransferOutcome × Tables Row
  with_count name n (ok counts, target) = (ok ((name, n) ∷ counts), target)
  with_count name n (err c m, target) = (err c m, target)

  -- What a table that was copied adds to the rest of the transfer.
  abbrev pub after_table :
      String
      → Result ℕ × List Row
      → Tables Row
      → (Tables Row → Result TransferOutcome × Tables Row)
      → Result TransferOutcome × Tables Row
  after_table name (ok n, rows) target rest = with_count name n (rest (put_table name rows target))
  after_table name (err c m, rows) target rest = (err c m, put_table name rows target)

  -- The loop of `transfer`.
  unfoldable pub copy_each :
      List String → Tables Row → Tables Row → Result TransferOutcome × Tables Row
  unfolding copy_table put_table
  copy_each [] source target = (ok [], target)
  copy_each (name ∷ names) source target =
      after_table name (copy_table name (source name) (target name)) target (copy_each names source)

  -- What is verified before a row moves.
  abbrev pub verified : List String → Database Row → Database Row → Result (Unit {0})
  verified names source target = and_then source.placement (λ _. and_then target.placement (λ _.
      and_then (verify_source_schema source) (λ _. refuse_a_filled_target names target.tables)))

  abbrev pub unless_refused :
      Result (Unit {0})
      → Tables Row
      → Result TransferOutcome × Tables Row
      → Result TransferOutcome × Tables Row
  unless_refused (ok _) target copied = copied
  unless_refused (err c m) target copied = (err c m, target)

  -- `transfer`, with the names of the tables in the order of their dependencies.
  unfoldable pub transfer :
      List String → Database Row → Database Row → Result TransferOutcome × Tables Row
  unfolding verify_source_schema refuse_a_filled_target copy_each
  transfer names source target =
      unless_refused (verified names source target) target.tables
        (copy_each names source.tables target.tables)
