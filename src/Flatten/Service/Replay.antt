-- ===== src/Flatten/Service/Replay.antt =====
-- A pass that is repeated after its cursor was cleared.
use yt_scrapper.Base.{
  ℕ, suc, ◌+◌, String, Bool, false, Option, none, some, List, [], ◌∷◌, ◌++◌, length, arith, ◌≡◌,
  ◌≢◌, refl, sym, ap, ◌∙◌,
}
use yt_scrapper.Artifacts.{Artifact}
use yt_scrapper.Flatten.Rows.{Calendar}
use yt_scrapper.Flatten.Tables.{Tables, Statement, execute}
use yt_scrapper.Flatten.Tables.Replay.{write_artifacts, write_artifacts_replay, or_unchanged}
use yt_scrapper.Flatten.Work.{
  Payload, failing, Work, prepared, payload_missing, refused, crashed, flatten,
}
use yt_scrapper.Keyset.{Cursor}
use yt_scrapper.Flatten.Query.{Batch}
use yt_scrapper.Flatten.Service.{Pass, write_executed, Ended, finished, new_pass, run}
use yt_scrapper.Keyset.{CollationLaws}
use yt_scrapper.Artifacts.{DistinctIds}
use yt_scrapper.Flatten.Service.Visits.{visit_work, visit, visit_each, walk}
use yt_scrapper.Flatten.Service.Walk.{replicate, due, run-walk}

module _ (calendar : Calendar) (refuses : Statement → Bool) (read : String → Payload) where
  abbrev works_of_one : Work → List (List Statement) → List (List Statement)
  works_of_one (prepared f) works = f.statements ∷ works
  works_of_one _ works = works

  -- The statements of the artifacts that are prepared.
  abbrev works_of : List Artifact → List (List Statement)
  works_of [] = []
  works_of (a ∷ as') = works_of_one (flatten calendar read a) (works_of as')

  visit_work-tables :
      (a : Artifact) (w : Work) (works : List (List Statement)) (p : Pass)
      → write_artifacts refuses works (visit_work calendar refuses read a w p).tables
        ≡ write_artifacts refuses (works_of_one w works) p.tables
  visit_work-tables a (prepared f) works p = go (execute refuses f.statements p.tables)
    where
      go :
          (o : Option Tables)
          → write_artifacts refuses works (write_executed a f o p).tables
            ≡ write_artifacts refuses works (or_unchanged refuses p.tables o)
      go none = refl
      go (some t) = refl
  visit_work-tables a payload_missing works p = refl
  visit_work-tables a refused works p = refl
  visit_work-tables a crashed works p = refl

  visit_each-tables :
      (as' : List Artifact) (p : Pass)
      → (visit_each calendar refuses read as' p).tables
        ≡ write_artifacts refuses (works_of as') p.tables
  visit_each-tables [] p = refl
  visit_each-tables (a ∷ as') p =
      visit_each-tables as' (visit calendar refuses read a p)
      ∙ visit_work-tables a (flatten calendar read a) (works_of as')
          (record p { seen = p.seen + 1 })

  walk-tables :
      (as' : List Artifact) (p : Pass)
      → (walk calendar refuses read as' p).tables ≡ write_artifacts refuses (works_of as') p.tables
  walk-tables [] p = refl
  walk-tables (a ∷ as') p = visit_each-tables (a ∷ as') p

  visit_each-append :
      (xs ys : List Artifact) (p : Pass)
      → visit_each calendar refuses read (xs ++ ys) p
        ≡ visit_each calendar refuses read ys (visit_each calendar refuses read xs p)
  visit_each-append [] ys p = refl
  visit_each-append (x ∷ xs) ys p = visit_each-append xs ys (visit calendar refuses read x p)

  -- Walking again over everything that was walked in two turns changes no table.
  walk_replay :
      (xs ys : List Artifact) (p q r : Pass)
      → q.tables ≡ (walk calendar refuses read xs p).tables
      → r.tables ≡ (walk calendar refuses read ys q).tables
      → (walk calendar refuses read (xs ++ ys) r).tables ≡ r.tables
  walk_replay xs ys p q r e f =
      let works = works_of (xs ++ ys) in
      let x = visit_each calendar refuses read xs p in
      let written : r.tables ≡ write_artifacts refuses works p.tables =
        f
        ∙ walk-tables ys q
        ∙ ap (write_artifacts refuses (works_of ys))
            (e ∙ walk-tables xs p ∙ sym (visit_each-tables xs p))
        ∙ sym (visit_each-tables ys x)
        ∙ ap (λ (n : Pass). n.tables) (sym (visit_each-append xs ys p))
        ∙ visit_each-tables (xs ++ ys) p in
      walk-tables (xs ++ ys) r
      ∙ ap (write_artifacts refuses works) written
      ∙ write_artifacts_replay refuses works [] p.tables
      ∙ sym written

module _ (calendar : Calendar) (refuses : Statement → Bool) (earlier : String → String → Bool)
    (laws : CollationLaws earlier) (k : ℕ) where
  -- A pass with rounds enough for what is due.
  abbrev pub full_run : Batch → Tables → Option Cursor → Ended
  full_run b t progress =
      run calendar refuses earlier (suc k) none false
        (replicate (suc (length (due calendar refuses earlier laws b progress))) b) t progress

  -- When a pass is followed by a pass over later artifacts, and then the cursor is cleared, the pass
  -- that reads everything again, the earlier artifacts and the later ones, changes no table: what is
  -- newer is never overwritten by what is older. The payload files are the same throughout, every
  -- payload is read or is missing, and without a cursor the later index lists, in order, what the
  -- first pass read and then what comes after its cursor.
  pub run_replay :
      (first later : Batch) (t : Tables)
      → DistinctIds first.index
      → DistinctIds later.index
      → later.read ≡ first.read
      → ((d : String) → first.read d ≢ failing)
      → let xs = due calendar refuses earlier laws first none in
        let progress = (walk calendar refuses first.read xs (new_pass t none)).progress in
        due calendar refuses earlier laws later none
          ≡ xs ++ due calendar refuses earlier laws later progress
        → (p : Pass) × (q : Pass) × (r : Pass) × (full_run first t none ≡ finished p)
          × (full_run later p.tables p.progress ≡ finished q)
          × (full_run later q.tables none ≡ finished r)
          × (r.tables ≡ q.tables)
  run_replay first later t d d' same_files h all_listed =
      let xs = due calendar refuses earlier laws first none in
      let p = walk calendar refuses first.read xs (new_pass t none) in
      let ys = due calendar refuses earlier laws later p.progress in
      let q = walk calendar refuses later.read ys (new_pass p.tables p.progress) in
      let zs = due calendar refuses earlier laws later none in
      let h' : (e : String) → later.read e ≢ failing = rw same_files h in
      (
        p,
        q,
        walk calendar refuses later.read zs (new_pass q.tables none),
        run-walk calendar refuses earlier laws first k (suc (length xs)) t none d h (omega arith),
        run-walk calendar refuses earlier laws later k (suc (length ys)) p.tables p.progress d' h'
            (omega arith),
        run-walk calendar refuses earlier laws later k (suc (length zs)) q.tables none d' h'
            (omega arith),
        ap (λ l. (walk calendar refuses later.read l (new_pass q.tables none)).tables) all_listed
            ∙ ap (λ f. (walk calendar refuses f (xs ++ ys) (new_pass q.tables none)).tables)
                same_files
            ∙ walk_replay calendar refuses first.read xs ys (new_pass t none)
                (new_pass p.tables p.progress) (new_pass q.tables none) refl (rw same_files),
      )
