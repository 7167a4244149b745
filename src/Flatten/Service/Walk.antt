-- ===== src/Flatten/Service/Walk.antt =====
-- The pass as one walk: each artifact that is due is visited once, in order, with no batches.
use yt_scrapper.Base.{
  take-drop, length-drop, ℕ, zero, suc, ◌<◌, String, Bool, false, Option, none, List, [], ◌∷◌,
  length, select, take, drop, arith, ◌≡◌, ◌≢◌, refl, ap, ◌∙◌,
}
use yt_scrapper.Artifacts.{Artifact}
use yt_scrapper.Flatten.Rows.{Calendar}
use yt_scrapper.Flatten.Tables.{Tables, Statement}
use yt_scrapper.Flatten.Work.{failing}
use yt_scrapper.Keyset.{Cursor, precedes}
use yt_scrapper.Flatten.Query.{Batch, key_of, is_settled, is_due, ordered}
use yt_scrapper.Flatten.Service.{Pass, finished, ends, goes_on, turn, run_batches, new_pass, run}
use yt_scrapper.Keyset.{CollationLaws}
use yt_scrapper.Keyset.Order.{precedes_laws}
use yt_scrapper.Keyset.Next.{ordered-next}
use yt_scrapper.Artifacts.{DistinctIds}
use yt_scrapper.Flatten.Service.Visits.{walk, run_batch-walk, walk-append}

abbrev pub replicate {ℓ} : {A : Type ℓ} → ℕ → A → List A
replicate zero x = []
replicate (suc n) x = x ∷ replicate n x

module _ (calendar : Calendar) (refuses : Statement → Bool) (earlier : String → String → Bool)
    (laws : CollationLaws earlier) (b : Batch) where
  -- The artifacts that are due after a cursor, in order.
  abbrev pub due : Option Cursor → List Artifact
  due cursor = ordered earlier (select (is_due earlier b.now cursor) b.index)

  turn-nil :
      (k : ℕ) (p : Pass)
      → due p.cursor ≡ []
      → turn calendar refuses earlier (suc k) none false b p ≡ ends (finished p)
  unfolding turn
  turn-nil k p e = rw e

  turn-cons :
      (k : ℕ) (p : Pass) (x : Artifact) (l : List Artifact)
      → ((d : String) → b.read d ≢ failing)
      → due p.cursor ≡ x ∷ l
      → turn calendar refuses earlier (suc k) none false b p
        ≡ goes_on (walk calendar refuses b.read (x ∷ take k l) p)
  unfolding turn
  turn-cons k p x l h e = rw e (rw (run_batch-walk calendar refuses b.read x (take k l) p h))

  run_batches-walk :
      (k n : ℕ) (p : Pass) (l : List Artifact)
      → DistinctIds b.index
      → ((d : String) → b.read d ≢ failing)
      → due p.cursor ≡ l
      → length l < n
      → run_batches calendar refuses earlier (suc k) none false (replicate n b) p
        ≡ finished (walk calendar refuses b.read l p)
  unfolding run_batches
  run_batches-walk k zero p l d h e lt = absurd (omega (arith, lt))
  run_batches-walk k (suc n) p [] d h e lt = rw (turn-nil k p e, run_batches)
  run_batches-walk k (suc n) p (x ∷ l) d h e lt =
      let q = walk calendar refuses b.read (x ∷ take k l) p in
      rw (turn-cons k p x l h e, run_batches)
        (run_batches-walk k n q (drop k l) d h
            (ordered-next key_of (precedes earlier) (precedes_laws earlier laws) (is_settled b.now)
              p.cursor b.index x k l d e)
            (omega (arith, length-drop k l, lt))
          ∙ ap finished (walk-append calendar refuses b.read x (take k l) (drop k l) p)
          ∙ ap (λ r. finished (walk calendar refuses b.read (x ∷ r) p)) (take-drop k l))

  -- A pass over an index that stays as it is, whose payloads are read or are missing, comes to an
  -- end, and it has visited each artifact that was due exactly once, in order, whatever the size of
  -- its batches: its tables, its counts and its cursor are those of one walk without batches.
  pub run-walk :
      (k n : ℕ) (t : Tables) (progress : Option Cursor)
      → DistinctIds b.index
      → ((d : String) → b.read d ≢ failing)
      → length (due progress) < n
      → run calendar refuses earlier (suc k) none false (replicate n b) t progress
        ≡ finished (walk calendar refuses b.read (due progress) (new_pass t progress))
  unfolding run
  run-walk k n t progress d h lt =
      run_batches-walk k n (new_pass t progress) (due progress) d h refl lt
