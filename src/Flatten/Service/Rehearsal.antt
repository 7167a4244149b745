-- ===== src/Flatten/Service/Rehearsal.antt =====
-- A pass that is rehearsed.
use yt_scrapper.Base.{
  ℕ, ◌+◌, String, Bool, true, false, Option, none, some, List, [], ◌∷◌, is_some, arith, ◌≡◌, refl,
  ap, ◌∙◌, inl, inr, Bool-cases, ◌>>=◌,
}
use yt_scrapper.Artifacts.{Artifact}
use yt_scrapper.Flatten.Rows.{Calendar}
use yt_scrapper.Flatten.Tables.{Tables, Statement, execute, write}
use yt_scrapper.Flatten.Work.{
  Payload, Flattened, Work, prepared, payload_missing, refused, crashed, flatten,
}
use yt_scrapper.Keyset.{Cursor}
use yt_scrapper.Flatten.Query.{Batch, read_batch}
use yt_scrapper.Flatten.Service.{
  Pass, last_key, count_work, with_prepared, is_crashed, prepare, write_executed, write_items,
  write_prepared, run_batch, Ended, finished, stopped, unfinished, Turned, ends, goes_on,
  turn_after, turn_on, turn, run_batches, new_pass, run, is_reached, size_of,
}

-- A pass whose writes are set aside.
abbrev set_aside : Tables → Option Cursor → Pass → Pass
set_aside t g p = record p { tables = t; progress = g }

abbrev pub unwritten : Tables → Option Cursor → Ended → Ended
unwritten t g (finished p) = finished (set_aside t g p)
unwritten t g (stopped p) = stopped (set_aside t g p)
unwritten t g (unfinished p) = unfinished (set_aside t g p)

module _ (calendar : Calendar) (refuses : Statement → Bool) where
  -- Whether the statements of an artifact are refused does not depend on the tables.
  execute_tables :
      (ss : List Statement) (t u : Tables)
      → is_some (execute refuses ss t) ≡ is_some (execute refuses ss u)
  unfolding execute
  execute_tables [] t u = refl
  execute_tables (s ∷ ss) t u = ground (arith, execute_tables ss (write s t) (write s u))

  count_work-set_aside :
      (w : Work) (t : Tables) (g : Option Cursor) (p : Pass)
      → count_work w (set_aside t g p) ≡ set_aside t g (count_work w p)
  count_work-set_aside (prepared f) t g p = refl
  count_work-set_aside payload_missing t g p = refl
  count_work-set_aside refused t g p = refl
  count_work-set_aside crashed t g p = refl

  abbrev both_aside :
      Tables
      → Option Cursor
      → Option (List (Artifact × Flattened) × Pass)
      → Option (List (Artifact × Flattened) × Pass)
  both_aside t g none = none
  both_aside t g (some (items, p)) = some (items, set_aside t g p)

  prepare-set_aside :
      (read : String → Payload) (as' : List Artifact) (t : Tables) (g : Option Cursor) (p : Pass)
      → prepare calendar read as' (set_aside t g p) ≡ both_aside t g (prepare calendar read as' p)
  unfolding prepare
  prepare-set_aside read [] t g p = refl
  prepare-set_aside read (a ∷ as') t g p =
      let w = flatten calendar read a in
      let p' = record p { seen = p.seen + 1 } in
      elim (Bool-cases (is_crashed w)) [
        | inl e ↦ rw e
        | inr e ↦ rw e (
            ap (λ q. prepare calendar read as' q >>= λ r. some (with_prepared a w r.0, r.1))
              (count_work-set_aside w t g p')
            ∙ ap (λ o. o >>= λ r. some (with_prepared a w r.0, r.1))
                (prepare-set_aside read as' t g (count_work w p'))
            ∙ ground arith)
      ]

  -- The second loop ends with the same counts, whatever tables it starts from.
  write_items-set_aside :
      (items : List (Artifact × Flattened)) (t : Tables) (g : Option Cursor) (p q : Pass)
      → set_aside t g p ≡ set_aside t g q
      → set_aside t g (write_items refuses items p) ≡ set_aside t g (write_items refuses items q)
  unfolding write_items
  write_items-set_aside [] t g p q e = e
  write_items-set_aside ((a, f) ∷ items) t g p q e =
      write_items-set_aside items t g (write_executed a f (execute refuses f.statements p.tables) p)
        (write_executed a f (execute refuses f.statements q.tables) q)
        (executed-set_aside a f (execute refuses f.statements p.tables)
          (execute refuses f.statements q.tables) t g p q e
          (execute_tables f.statements p.tables q.tables))
    where
      executed-set_aside :
          (a : Artifact) (f : Flattened) (x y : Option Tables) (t : Tables) (g : Option Cursor)
          (p q : Pass)
          → set_aside t g p ≡ set_aside t g q
          → is_some x ≡ is_some y
          → set_aside t g (write_executed a f x p) ≡ set_aside t g (write_executed a f y q)
      executed-set_aside a f none none t g p q e s = ap (write_executed a f none) e
      executed-set_aside a f (some u) none t g p q e s = cc
      executed-set_aside a f none (some u) t g p q e s = cc
      executed-set_aside a f (some u) (some v) t g p q e s = ap (write_executed a f (some t)) e

  abbrev aside : Tables → Option Cursor → Option Pass → Option Pass
  aside t g none = none
  aside t g (some p) = some (set_aside t g p)

  -- A rehearsed batch counts what a real one counts, and leaves tables and cursor as they are.
  run_batch-dry :
      (read : String → Payload) (x : Artifact) (l : List Artifact) (t : Tables) (g : Option Cursor)
      (p : Pass)
      → run_batch calendar refuses true read x l (set_aside t g p)
        ≡ aside t g (run_batch calendar refuses false read x l p)
  unfolding run_batch
  run_batch-dry read x l t g p =
      let p' = record p { cursor = some (last_key x l) } in
      ap (write_prepared refuses true (set_aside t g p')) (prepare-set_aside read (x ∷ l) t g p')
      ∙ go (prepare calendar read (x ∷ l) p')
    where
      go :
          (o : Option (List (Artifact × Flattened) × Pass))
          → write_prepared refuses true
              (set_aside t g (record p { cursor = some (last_key x l) }))
              (both_aside t g o)
            ≡ aside t g (write_prepared refuses false (record p { cursor = some (last_key x l) }) o)
      go none = refl
      go (some (items, q)) = ap some (write_items-set_aside items t g (set_aside t g q) q refl)

module _ (calendar : Calendar) (refuses : Statement → Bool) (earlier : String → String → Bool)
    (batch_size : ℕ) (limit : Option ℕ) where
  abbrev turned_aside : Tables → Option Cursor → Turned → Turned
  turned_aside t g (ends e) = ends (unwritten t g e)
  turned_aside t g (goes_on p) = goes_on (set_aside t g p)

  turn_after-aside :
      (t : Tables) (g : Option Cursor) (p : Pass) (o : Option Pass)
      → turn_after (set_aside t g p) (aside calendar refuses t g o)
        ≡ turned_aside t g (turn_after p o)
  turn_after-aside t g p none = refl
  turn_after-aside t g p (some q) = refl

  turn_on-dry :
      (b : Batch) (t : Tables) (g : Option Cursor) (p : Pass) (l : List Artifact)
      → turn_on calendar refuses earlier batch_size limit true b (set_aside t g p) l
        ≡ turned_aside t g (turn_on calendar refuses earlier batch_size limit false b p l)
  turn_on-dry b t g p [] = refl
  turn_on-dry b t g p (x ∷ l) =
      ap (turn_after (set_aside t g p)) (run_batch-dry calendar refuses b.read x l t g p)
      ∙ turn_after-aside t g p (run_batch calendar refuses false b.read x l p)

  turn-dry :
      (b : Batch) (t : Tables) (g : Option Cursor) (p : Pass)
      → turn calendar refuses earlier batch_size limit true b (set_aside t g p)
        ≡ turned_aside t g (turn calendar refuses earlier batch_size limit false b p)
  unfolding turn
  turn-dry b t g p = elim (Bool-cases (is_reached limit p.seen)) [
    | inl e ↦ rw e
    | inr e ↦
        rw e (turn_on-dry b t g p (read_batch earlier b p.cursor (size_of batch_size limit p.seen)))
  ]

  run_batches-dry :
      (bs : List Batch) (t : Tables) (g : Option Cursor) (p : Pass)
      → run_batches calendar refuses earlier batch_size limit true bs (set_aside t g p)
        ≡ unwritten t g (run_batches calendar refuses earlier batch_size limit false bs p)
  unfolding run_batches
  run_batches-dry [] t g p = refl
  run_batches-dry (b ∷ bs) t g p =
      ap (after_turn bs true) (turn-dry b t g p)
      ∙ go (turn calendar refuses earlier batch_size limit false b p) (run_batches-dry bs t g)
    where
      after_turn : List Batch → Bool → Turned → Ended
      after_turn bs dry (ends e) = e
      after_turn bs dry (goes_on q) = run_batches calendar refuses earlier batch_size limit dry bs q

      go :
          (u : Turned)
          → ((q : Pass)
              → run_batches calendar refuses earlier batch_size limit true bs (set_aside t g q)
                ≡ unwritten t g (run_batches calendar refuses earlier batch_size limit false bs q))
          → after_turn bs true (turned_aside t g u) ≡ unwritten t g (after_turn bs false u)
      go (ends e) ih = refl
      go (goes_on q) ih = ih q

  -- A rehearsal reports exactly what the real pass over the same batches reports, its cursor and
  -- the way it ends included, and writes neither a table nor the stored cursor.
  pub run-dry :
      (bs : List Batch) (t : Tables) (progress : Option Cursor)
      → run calendar refuses earlier batch_size limit true bs t progress
        ≡ unwritten t progress (run calendar refuses earlier batch_size limit false bs t progress)
  unfolding run
  run-dry bs t progress = run_batches-dry bs t progress (new_pass t progress)
