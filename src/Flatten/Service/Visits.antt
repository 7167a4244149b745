-- ===== src/Flatten/Service/Visits.antt =====
-- A batch of a pass as visits of its artifacts, one after the other, and batches in turn as one walk.
use yt_scrapper.Base.{
  ℕ, ◌+◌, String, Bool, false, Option, none, some, List, [], ◌∷◌, ◌++◌, arith, ◌≡◌, ◌≢◌, refl, sym,
  ap, ◌∙◌,
}
use mathlib.Core.List.{append-nil}
use yt_scrapper.Artifacts.{Artifact}
use yt_scrapper.Flatten.Rows.{Calendar}
use yt_scrapper.Flatten.Tables.{Tables, Statement, execute}
use yt_scrapper.Flatten.Work.{
  Payload, missing, undecodable, failing, decoded, Flattened, Work, prepared, payload_missing,
  refused, crashed, flatten, work_on, observation_of,
}
use yt_scrapper.Keyset.{Cursor, last_key as key_of_last}
use yt_scrapper.Flatten.Service.{
  Pass, last_key, count_work, with_prepared, is_crashed, prepare, write_executed, write_items,
  run_batch,
}

-- Adding to the counts of the first loop over a batch.
abbrev bump : ℕ → ℕ → ℕ → Pass → Pass
bump s m e p = record p {
  seen = p.seen + s;
  missing_payloads = p.missing_payloads + m;
  errors = p.errors + e;
}

last_key-append :
    (x : Artifact) (as' : List Artifact) (y : Artifact) (ys : List Artifact)
    → last_key x (as' ++ y ∷ ys) ≡ last_key y ys
unfolding key_of_last
last_key-append x [] y ys = refl
last_key-append x (a ∷ as') y ys = last_key-append a as' y ys

-- A pass whose cursor, in memory and stored, is a given one.
abbrev at_cursor : Option Cursor → Pass → Pass
at_cursor c p = record p { cursor = c; progress = c }

write_executed-bump :
    (a : Artifact) (f : Flattened) (o : Option Tables) (s m e : ℕ) (p : Pass)
    → write_executed a f o (bump s m e p) ≡ bump s m e (write_executed a f o p)
write_executed-bump a f none s m e p = ground arith
write_executed-bump a f (some t) s m e p = refl

bump-bump :
    (p : Pass) (s m e s' m' e' : ℕ)
    → bump s' m' e' (bump s m e p) ≡ bump (s + s') (m + m') (e + e') p
bump-bump p s m e s' m' e' = ground arith

count_work-bump :
    (w : Work)
    → (m : ℕ) × (e : ℕ) × ((p : Pass)
        → count_work w (record p { seen = p.seen + 1 }) ≡ bump 1 m e p)
count_work-bump (prepared f) = (0, 0, λ p. ground arith)
count_work-bump payload_missing = (1, 0, λ p. ground arith)
count_work-bump refused = (0, 1, λ p. ground arith)
count_work-bump crashed = (0, 0, λ p. ground arith)

module _ (calendar : Calendar) (refuses : Statement → Bool) (read : String → Payload) where
  -- The visit of one artifact: its payload is read, and its rows are written.
  abbrev pub visit_work : Artifact → Work → Pass → Pass
  visit_work a (prepared f) p = write_executed a f (execute refuses f.statements p.tables) p
  visit_work a work p = count_work work p

  abbrev pub visit : Artifact → Pass → Pass
  visit a p = visit_work a (flatten calendar read a) (record p { seen = p.seen + 1 })

  abbrev pub visit_each : List Artifact → Pass → Pass
  visit_each [] p = p
  visit_each (a ∷ as') p = visit_each as' (visit a p)

  -- All of them, and the cursor at the last.
  abbrev pub walk : List Artifact → Pass → Pass
  walk [] p = p
  walk (a ∷ as') p = at_cursor (some (last_key a as')) (visit_each (a ∷ as') p)

-- A read that fails is the only exception of a visit.
not_crashed :
    (calendar : Calendar) (read : String → Payload) (a : Artifact)
    → ((d : String) → read d ≢ failing)
    → is_crashed (flatten calendar read a) ≡ false
unfolding flatten
not_crashed calendar read a h = go (read a.digest) (h a.digest)
  where
    go : (r : Payload) → r ≢ failing → is_crashed (work_on calendar (observation_of a) r) ≡ false
    go missing n = refl
    go undecodable n = refl
    go failing n = absurd (n refl)
    go (decoded v) n = ground arith

module _ (calendar : Calendar) (read : String → Payload) where
  abbrev items_of : List Artifact → List (Artifact × Flattened)
  items_of [] = []
  items_of (a ∷ as') = with_prepared a (flatten calendar read a) (items_of as')

  abbrev counted : List Artifact → Pass → Pass
  counted [] p = p
  counted (a ∷ as') p =
      counted as' (count_work (flatten calendar read a) (record p { seen = p.seen + 1 }))

  prepare-counted :
      (as' : List Artifact) (p : Pass)
      → ((d : String) → read d ≢ failing)
      → prepare calendar read as' p ≡ some (items_of as', counted as' p)
  unfolding prepare
  prepare-counted [] p h = refl
  prepare-counted (a ∷ as') p h = rw (not_crashed calendar read a h) (
      rw (
        prepare-counted as' (count_work (flatten calendar read a) (record p { seen = p.seen + 1 }))
          h))

  counted-bump :
      (as' : List Artifact)
      → (s : ℕ) × (m : ℕ) × (e : ℕ) × ((p : Pass) → counted as' p ≡ bump s m e p)
  counted-bump [] = (0, 0, 0, λ p. ground arith)
  counted-bump (a ∷ as') =
      let (s, m, e, rest) = counted-bump as' in
      let (m', e', first) = count_work-bump (flatten calendar read a) in
      (
        1 + s,
        m' + m,
        e' + e,
        λ p.
            rest (count_work (flatten calendar read a) (record p { seen = p.seen + 1 }))
            ∙ ap (bump s m e) (first p)
            ∙ bump-bump p 1 m' e' s m e,
      )

module _ (calendar : Calendar) (refuses : Statement → Bool) (read : String → Payload) where
  -- Writing after counting is visiting.
  write_items-visit_work :
      (a : Artifact) (w : Work) (as' : List Artifact) (q : Pass)
      → ((p : Pass)
          → write_items refuses (items_of calendar read as') (counted calendar read as' p)
            ≡ visit_each calendar refuses read as' p)
      → write_items refuses
          (with_prepared a w (items_of calendar read as'))
          (counted calendar read as' (count_work w q))
        ≡ visit_each calendar refuses read as' (visit_work calendar refuses read a w q)
  unfolding write_items
  write_items-visit_work a (prepared f) as' q ih =
      let (s, m, e, same_counts) = counted-bump calendar read as' in
      let o = execute refuses f.statements q.tables in
      ap (write_items refuses (items_of calendar read as')) (
        ap (λ r. write_executed a f (execute refuses f.statements r.tables) r) (same_counts q)
        ∙ write_executed-bump a f o s m e q
        ∙ sym (same_counts (write_executed a f o q)))
      ∙ ih (write_executed a f o q)
  write_items-visit_work a payload_missing as' q ih = ih (count_work payload_missing q)
  write_items-visit_work a refused as' q ih = ih (count_work refused q)
  write_items-visit_work a crashed as' q ih = ih (count_work crashed q)

  write_items-visit_each :
      (as' : List Artifact) (p : Pass)
      → write_items refuses (items_of calendar read as') (counted calendar read as' p)
        ≡ visit_each calendar refuses read as' p
  write_items-visit_each [] p = unfold write_items in refl
  write_items-visit_each (a ∷ as') p =
      write_items-visit_work a (flatten calendar read a) as' (record p { seen = p.seen + 1 })
        (write_items-visit_each as')

  -- A visit neither reads nor moves the cursor.
  visit_work-at_cursor :
      (a : Artifact) (w : Work) (c g : Option Cursor) (p : Pass)
      → visit_work calendar refuses read a w (record p { cursor = c; progress = g })
        ≡ record (visit_work calendar refuses read a w p) { cursor = c; progress = g }
  visit_work-at_cursor a (prepared f) c g p = go (execute refuses f.statements p.tables)
    where
      go :
          (o : Option Tables)
          → write_executed a f o (record p { cursor = c; progress = g })
            ≡ record (write_executed a f o p) { cursor = c; progress = g }
      go none = refl
      go (some t) = refl
  visit_work-at_cursor a payload_missing c g p = refl
  visit_work-at_cursor a refused c g p = refl
  visit_work-at_cursor a crashed c g p = refl

  visit_each-at_cursor :
      (as' : List Artifact) (c g : Option Cursor) (p : Pass)
      → visit_each calendar refuses read as' (record p { cursor = c; progress = g })
        ≡ record (visit_each calendar refuses read as' p) { cursor = c; progress = g }
  visit_each-at_cursor [] c g p = refl
  visit_each-at_cursor (a ∷ as') c g p =
      ap (visit_each calendar refuses read as')
        (visit_work-at_cursor a (flatten calendar read a) c g (record p { seen = p.seen + 1 }))
      ∙ visit_each-at_cursor as' c g (visit calendar refuses read a p)

  -- A batch is a walk over its artifacts.
  pub run_batch-walk :
      (x : Artifact) (l : List Artifact) (p : Pass)
      → ((d : String) → read d ≢ failing)
      → run_batch calendar refuses false read x l p ≡ some (walk calendar refuses read (x ∷ l) p)
  unfolding run_batch
  run_batch-walk x l p h =
      let c : Option Cursor = some (last_key x l) in
      let p' = record p { cursor = c } in
      rw (prepare-counted calendar read (x ∷ l) p' h) (
        ap {A = Pass} (λ q. some (record q { progress = q.cursor }))
          (write_items-visit_each (x ∷ l) p' ∙ visit_each-at_cursor (x ∷ l) c p.progress p))

  visit_each-append :
      (xs ys : List Artifact) (p : Pass)
      → visit_each calendar refuses read (xs ++ ys) p
        ≡ visit_each calendar refuses read ys (visit_each calendar refuses read xs p)
  visit_each-append [] ys p = refl
  visit_each-append (x ∷ xs) ys p = visit_each-append xs ys (visit calendar refuses read x p)

  -- Two walks in turn are one.
  pub walk-append :
      (x : Artifact) (as' ys : List Artifact) (p : Pass)
      → walk calendar refuses read ys (walk calendar refuses read (x ∷ as') p)
        ≡ walk calendar refuses read (x ∷ (as' ++ ys)) p
  walk-append x as' [] p = rw (append-nil as')
  walk-append x as' (y ∷ ys) p =
      let c : Option Cursor = some (last_key x as') in
      rw (last_key-append x as' y ys) (
        ap (at_cursor (some (last_key y ys))) (
          visit_each-at_cursor (y ∷ ys) c c (visit_each calendar refuses read (x ∷ as') p)
          ∙ ap (at_cursor c) (sym (visit_each-append (x ∷ as') (y ∷ ys) p))))
