-- ===== src/Flatten/Service.antt =====
-- `FlattenService`: the walk over new artifacts, batch by batch. What a batch finds outside, the
-- index, the clock and the payload files, is an argument; so is the database's order of identifiers.
pub mod Visits
pub mod Walk
pub mod Replay
pub mod Rehearsal
pub mod Stop
use Prim.Native.Nat
use yt_scrapper.Base.{
  ℕ, ◌+◌, ◌-◌, String, Bool, true, false, Option, none, some, List, [], ◌∷◌, leb, same, not, ◌&&◌,
  ◌==◌, ◌>>=◌, if◌then◌else◌,
}
use yt_scrapper.Artifacts.{Artifact}
use yt_scrapper.Flatten.Rows.{Calendar}
use yt_scrapper.Flatten.Tables.{Tables, Statement, execute}
use yt_scrapper.Flatten.Work.{
  Flattened, Payload, Work, crashed, flatten, payload_missing, prepared, refused,
}
use yt_scrapper.Keyset.{Cursor, last_key as key_of_last}
use yt_scrapper.Flatten.Query.{Batch, key_of, read_batch}

-- The counts of a pass, its cursor, and what it writes.
pub record Pass : Type 0 where
  pub seen : ℕ
  pub flattened : List (String × ℕ)
  pub unhandled : ℕ
  pub missing_payloads : ℕ
  pub errors : ℕ
  pub cursor : Option Cursor
  pub tables : Tables
  pub progress : Option Cursor

-- `flattened[kind] = flattened.get(kind, 0) + 1`
unfoldable pub count_kind : String → List (String × ℕ) → List (String × ℕ)
count_kind kind [] = (kind, 1) ∷ []
count_kind kind ((k, n) ∷ counts) =
    if same k kind then (k, n + 1) ∷ counts else (k, n) ∷ count_kind kind counts

-- The key of the last row of a batch.
abbrev pub last_key : Artifact → List Artifact → Cursor
last_key = key_of_last key_of

-- The counts of one artifact that is not prepared.
abbrev count_work : Work → Pass → Pass
count_work (prepared f) p = p
count_work payload_missing p = record p { missing_payloads = p.missing_payloads + 1 }
count_work refused p = record p { errors = p.errors + 1 }
count_work crashed p = p

abbrev with_prepared : Artifact → Work → List (Artifact × Flattened) → List (Artifact × Flattened)
with_prepared a (prepared f) items = (a, f) ∷ items
with_prepared a _ items = items

abbrev is_crashed : Work → Bool
is_crashed crashed = true
is_crashed _ = false

-- The first loop over a batch: what is prepared, and the counts; `none` is an exception.
unfoldable pub prepare :
    Calendar
    → (String → Payload)
    → List Artifact
    → Pass
    → Option (List (Artifact × Flattened) × Pass)
prepare calendar read [] p = some ([], p)
prepare calendar read (a ∷ as') p =
    let work = flatten calendar read a in
    let p' = count_work work (record p { seen = p.seen + 1 }) in
    let rest = prepare calendar read as' p' in
    if is_crashed work then none else rest >>= λ r. some (with_prepared a work r.0, r.1)

-- What an artifact that was written counts as.
abbrev count_written : String → Flattened → Pass → Pass
count_written kind f p = record p {
  flattened = if f.is_handled then count_kind kind p.flattened else p.flattened;
  unhandled =
      p.unhandled
      + f.unhandled_parts
      + (if not f.is_handled && f.unhandled_parts == 0 then 1 else 0);
}

abbrev write_executed : Artifact → Flattened → Option Tables → Pass → Pass
write_executed a f none p = record p { errors = p.errors + 1 }
write_executed a f (some t) p = count_written a.kind f (record p { tables = t })

-- The second loop, in one transaction.
unfoldable pub write_items : (Statement → Bool) → List (Artifact × Flattened) → Pass → Pass
write_items refuses [] p = p
write_items refuses ((a, f) ∷ items) p =
    write_items refuses items (write_executed a f (execute refuses f.statements p.tables) p)

-- The end of the transaction: a rehearsal rolls it back, and leaves the stored cursor alone.
abbrev commit : Bool → Tables → Option Cursor → Pass → Pass
commit true before progress p = record p { tables = before; progress = progress }
commit false before progress p = record p { progress = p.cursor }

abbrev write_prepared :
    (Statement → Bool) → Bool → Pass → Option (List (Artifact × Flattened) × Pass) → Option Pass
write_prepared refuses dry_run p none = none
write_prepared refuses dry_run p (some (items, p')) =
    some (commit dry_run p.tables p.progress (write_items refuses items p'))

-- One batch that is not empty.
unfoldable pub run_batch :
    Calendar
    → (Statement → Bool)
    → Bool
    → (String → Payload)
    → Artifact
    → List Artifact
    → Pass
    → Option Pass
unfolding prepare write_items key_of_last
run_batch calendar refuses dry_run read a as' p =
    let p' = record p { cursor = some (last_key a as') } in
    write_prepared refuses dry_run p' (prepare calendar read (a ∷ as') p')

-- A pass at its start, from the tables and the cursor that are stored.
abbrev pub new_pass : Tables → Option Cursor → Pass
new_pass t progress = record {
  seen = 0;
  flattened = [];
  unhandled = 0;
  missing_payloads = 0;
  errors = 0;
  cursor = progress;
  tables = t;
  progress = progress;
}

-- How a pass ends: by its loop, by an exception with what was committed before, or not yet, when
-- the batches have run out.
pub data Ended : Type 0 where
  finished stopped unfinished : Pass → Ended

pub data Turned : Type 0 where
  ends : Ended → Turned
  goes_on : Pass → Turned

abbrev turn_after : Pass → Option Pass → Turned
turn_after p none = ends (stopped p)
turn_after p (some p') = goes_on p'

abbrev pub is_reached : Option ℕ → ℕ → Bool
is_reached none seen = false
is_reached (some limit) seen = leb limit seen

abbrev pub size_of : ℕ → Option ℕ → ℕ → ℕ
size_of batch_size none seen = batch_size
size_of batch_size (some limit) seen = Nat.min batch_size (limit - seen)

module _ (calendar : Calendar) (refuses : Statement → Bool) (earlier : String → String → Bool)
    (batch_size : ℕ) (limit : Option ℕ) (dry_run : Bool) where
  abbrev turn_on : Batch → Pass → List Artifact → Turned
  turn_on b p [] = ends (finished p)
  turn_on b p (a ∷ as') = turn_after p (run_batch calendar refuses dry_run b.read a as' p)

  -- One time round the loop of `run`.
  unfoldable pub turn : Batch → Pass → Turned
  unfolding run_batch read_batch
  turn b p =
      if is_reached limit p.seen
      then ends (finished p)
      else turn_on b p (read_batch earlier b p.cursor (size_of batch_size limit p.seen))

  unfoldable pub run_batches : List Batch → Pass → Ended
  unfolding turn
  run_batches [] p = unfinished p
  run_batches (b ∷ bs) p = elim (turn b p) [ ends e ↦ e | goes_on p' ↦ run_batches bs p' ]

  -- `run`
  unfoldable pub run : List Batch → Tables → Option Cursor → Ended
  unfolding run_batches
  run bs t progress = run_batches bs (new_pass t progress)
