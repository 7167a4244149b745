-- ===== src/Flatten/Service/Stop.antt =====
-- A pass that an exception stops.
use yt_scrapper.Base.{
  ℕ, ◌+◌, String, Bool, true, false, Option, none, some, List, [], ◌∷◌, any, ◌≡◌, refl, inl, inr,
  Bool-cases,
}
use yt_scrapper.Artifacts.{Artifact}
use yt_scrapper.Flatten.Rows.{Calendar}
use yt_scrapper.Flatten.Tables.{Tables, Statement}
use yt_scrapper.Flatten.Work.{
  Payload, missing, undecodable, failing, decoded, flatten, work_on, observation_of,
}
use yt_scrapper.Keyset.{Cursor}
use yt_scrapper.Flatten.Query.{Batch, read_batch}
use yt_scrapper.Flatten.Service.{
  Pass, last_key, count_work, is_crashed, prepare, run_batch, stopped, ends, turn_on, turn,
  run_batches, new_pass, run, is_reached, size_of,
}

-- An exception of no expected kind.
abbrev is_failing : Payload → Bool
is_failing failing = true
is_failing _ = false

module _ (calendar : Calendar) (refuses : Statement → Bool) where
  work_on-failing :
      (a : Artifact) (r : Payload)
      → is_failing r ≡ true
      → is_crashed (work_on calendar (observation_of a) r) ≡ true
  work_on-failing a failing h = refl
  work_on-failing a missing h = cc
  work_on-failing a undecodable h = cc
  work_on-failing a (decoded v) h = cc

  prepare-failing :
      (read : String → Payload) (as' : List Artifact) (p : Pass)
      → any (λ a. is_failing (read a.digest)) as' ≡ true
      → prepare calendar read as' p ≡ none
  unfolding prepare flatten
  prepare-failing read [] p h = cc
  prepare-failing read (a ∷ as') p h = elim (Bool-cases (is_failing (read a.digest))) [
    | inl e ↦ rw (work_on-failing a (read a.digest) e)
    | inr e ↦
        let w = flatten calendar read a in
        let rest =
          prepare-failing read as' (count_work w (record p { seen = p.seen + 1 })) (rw e at h) in
        elim (Bool-cases (is_crashed w)) [ inl c ↦ rw c | inr c ↦ rw (c, rest) ]
  ]

module _ (calendar : Calendar) (refuses : Statement → Bool) (earlier : String → String → Bool)
    (batch_size : ℕ) (limit : Option ℕ) (dry_run : Bool) where
  turn_on-failing :
      (b : Batch) (p : Pass) (l : List Artifact)
      → any (λ a. is_failing (b.read a.digest)) l ≡ true
      → turn_on calendar refuses earlier batch_size limit dry_run b p l ≡ ends (stopped p)
  unfolding run_batch
  turn_on-failing b p [] h = cc
  turn_on-failing b p (x ∷ l) h = rw (
      prepare-failing calendar refuses b.read (x ∷ l) (record p { cursor = some (last_key x l) }) h)

  turn-failing :
      (b : Batch) (p : Pass)
      → is_reached limit p.seen ≡ false
      → any
          (λ a. is_failing (b.read a.digest))
          (read_batch earlier b p.cursor (size_of batch_size limit p.seen))
        ≡ true
      → turn calendar refuses earlier batch_size limit dry_run b p ≡ ends (stopped p)
  unfolding turn
  turn-failing b p r h =
      rw
        (r, turn_on-failing b p (read_batch earlier b p.cursor (size_of batch_size limit p.seen)) h)

  -- An artifact of the first batch whose payload cannot be read, by an exception that no clause
  -- catches, stops the pass before anything is written, the cursor included; a further pass over the
  -- same index starts from the same cursor.
  pub run-stopped :
      (b : Batch) (bs : List Batch) (t : Tables) (progress : Option Cursor)
      → is_reached limit 0 ≡ false
      → any
          (λ a. is_failing (b.read a.digest))
          (read_batch earlier b progress (size_of batch_size limit 0))
        ≡ true
      → run calendar refuses earlier batch_size limit dry_run (b ∷ bs) t progress
        ≡ stopped (new_pass t progress)
  unfolding run run_batches
  run-stopped b bs t progress r h = rw (turn-failing b (new_pass t progress) r h, run_batches)
