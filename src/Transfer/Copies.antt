-- ===== src/Transfer/Copies.antt =====
-- The whole transfer: what the target has when it returns, and when it is refused.
use text.Mathlib.TextPositions.{eq_refl}
use yt_scrapper.Base.{
  ℕ, String, true, false, Option, List, [], ◌∷◌, ◌++◌, length, map, same, contains, ◌≡◌, ◌≢◌, refl,
  sym, ap, subst, ◌∙◌, arith, eq_iff, if◌then◌else◌, inl, inr, Bool-cases,
}
use yt_scrapper.Errors.{Result, ok, err}
use yt_scrapper.Transfer.{
  Tables, Database, TransferOutcome, verify_source_schema, put_table, refused_if_filled,
  refuse_a_filled_target, copy_table, after_table, with_count, copy_each, verified, unless_refused,
  transfer,
}
use yt_scrapper.Transfer.Rows.{Appends, copy_table-ok}
use yt_scrapper.Errors.{and_then-ok}

-- No name twice.
abbrev NoRepeat : List String → Type 0
NoRepeat [] = Unit {0}
NoRepeat (name ∷ names) = (contains name names ≡ false) × NoRepeat names

module _ {Row : Type 0} (commit : String → List Row → List Row → Option (List Row)) where
  after_table-ok :
      (name : String) (copied : Result ℕ × List Row) (target : Tables Row)
      (rest : Tables Row → Result TransferOutcome × Tables Row) {out : TransferOutcome}
      {tables : Tables Row}
      → after_table commit name copied target rest ≡ (ok out, tables)
      → (n : ℕ) × (rows : List Row) × (counts : TransferOutcome) × (copied ≡ (ok n, rows))
        × (rest (put_table name rows target) ≡ (ok counts, tables))
        × (out ≡ (name, n) ∷ counts)
  after_table-ok name (ok n, rows) target rest {out} {tables} h =
      go (rest (put_table name rows target)) refl h
    where
      go :
          (r : Result TransferOutcome × Tables Row)
          → rest (put_table name rows target) ≡ r
          → with_count commit name n r ≡ (ok out, tables)
          → (n' : ℕ) × (rows' : List Row) × (counts : TransferOutcome) × (Path
              (Result ℕ × List Row)
              (ok n, rows)
              (ok n', rows'))
            × (rest (put_table name rows' target) ≡ (ok counts, tables))
            × (out ≡ (name, n') ∷ counts)
      go (ok counts, target') e q =
          let same_tables : target' ≡ tables = cc in
          (n, rows, counts, refl, rw (← same_tables) e, cc)
      go (err c m, target') e q = cc
  after_table-ok name (err c m, rows) target rest h = cc

  abbrev counts_of : Tables Row → List String → TransferOutcome
  counts_of source names = map (λ name. (name, length (source name))) names

  with_table :
      (n name : String) (rows : List Row) (names : List String) (source target : Tables Row)
      → contains n names ≡ false
      → rows ≡ target n ++ source n
      → (if contains name names
          then put_table n rows target name ++ source name
          else put_table n rows target name)
        ≡ (if contains name (n ∷ names) then target name ++ source name else target name)
  unfolding put_table
  with_table n name rows names source target d e = elim (Bool-cases (same n name)) [
    | inl q ↦
        let same_name : n ≡ name = (eq_iff n name).0 q in
        subst
          (λ x.
            (if contains x names
              then put_table n rows target x ++ source x
              else put_table n rows target x)
            ≡ (if contains x (n ∷ names) then target x ++ source x else target x))
          same_name (rw (d, eq_refl n) e)
    | inr q ↦ rw (q) refl
  ]

  -- A table of the transfer is the target's rows and then the source's; any other is as it was.
  copy_each-ok :
      (names : List String) (source target : Tables Row) {out : TransferOutcome}
      {tables : Tables Row}
      → Appends commit
      → NoRepeat names
      → copy_each commit names source target ≡ (ok out, tables)
      → (out ≡ counts_of source names)
        × ((name : String)
            → tables name
              ≡ (if contains name names then target name ++ source name else target name))
  unfolding copy_each
  copy_each-ok [] source target {out} {tables} appends d h =
      let same_tables : target ≡ tables = cc in (cc, λ name. ap (λ f. f name) (sym same_tables))
  copy_each-ok (n ∷ names) source target {out} {tables} appends d h =
      let (count, rows, counts, copied, rest, e) =
        after_table-ok n (copy_table commit n (source n) (target n)) target
          (copy_each commit names source) h in
      let (counted, appended) = copy_table-ok commit n (source n) (target n) appends copied in
      let (tail, each) = copy_each-ok names source (put_table n rows target) appends d.1 rest in
      (
        e ∙ cc (counted, tail),
        λ name. each name ∙ with_table n name rows names source target d.0 appended,
      )

  refuse_a_filled_target-ok :
      (names : List String) (target : Tables Row)
      → refuse_a_filled_target names target ≡ ok tt
      → (name : String) → contains name names ≡ true
      → target name ≡ []
  unfolding refuse_a_filled_target
  refuse_a_filled_target-ok [] target h name c = cc
  refuse_a_filled_target-ok (n ∷ names) target h name c =
      let (empty, rest) = both (target n) refl h in
      elim (Bool-cases (same n name)) [
        | inl q ↦ subst (λ x. target x ≡ []) ((eq_iff n name).0 q) empty
        | inr q ↦ refuse_a_filled_target-ok names target rest name (ground (arith, c, q))
      ]
    where
      both :
          (rows : List Row)
          → target n ≡ rows
          → refused_if_filled n (length rows) (refuse_a_filled_target names target) ≡ ok tt
          → (target n ≡ []) × (refuse_a_filled_target names target ≡ ok tt)
      both [] e q = (e, q)
      both (r ∷ rows) e q = cc

  verified-ok :
      (names : List String) (source target : Database Row)
      → verified commit names source target ≡ ok tt
      → refuse_a_filled_target names target.tables ≡ ok tt
  verified-ok names source target h =
      let (_, _, h1) = and_then-ok source.placement _ h in
      let (_, _, h2) = and_then-ok target.placement _ h1 in
      (and_then-ok (verify_source_schema source) _ h2).2

  -- A transfer that returns, over tables that are each named once and with commits that append, has
  -- found every table of the target empty, and leaves it with the rows of the source in their
  -- order; other tables are as they were, and the counts are those of the source.
  pub transfer-ok :
      (names : List String) (source target : Database Row) {out : TransferOutcome}
      {tables : Tables Row}
      → Appends commit
      → NoRepeat names
      → transfer commit names source target ≡ (ok out, tables)
      → (out ≡ map (λ name. (name, length (source.tables name))) names)
        × ((name : String)
            → contains name names ≡ true
            → (target.tables name ≡ []) × (tables name ≡ source.tables name))
        × ((name : String) → contains name names ≡ false → tables name ≡ target.tables name)
  unfolding transfer
  transfer-ok names source target {out} {tables} appends d h =
      go (verified commit names source target) refl h
    where
      filled :
          verified commit names source target ≡ ok tt
          → (name : String) → contains name names ≡ true
          → target.tables name ≡ []
      filled e = refuse_a_filled_target-ok names target.tables (verified-ok names source target e)

      go :
          (r : Result (Unit {0}))
          → verified commit names source target ≡ r
          → unless_refused commit r target.tables
              (copy_each commit names source.tables target.tables)
            ≡ (ok out, tables)
          → (out ≡ map (λ name. (name, length (source.tables name))) names)
            × ((name : String)
                → contains name names ≡ true
                → (target.tables name ≡ []) × (tables name ≡ source.tables name))
            × ((name : String) → contains name names ≡ false → tables name ≡ target.tables name)
      go (ok tt) e q =
          let (counts, each) = copy_each-ok names source.tables target.tables appends d q in
          (
            counts,
            (λ name c. let empty = filled e name c in (empty, each name ∙ rw (c, empty) refl)),
            (λ name c. each name ∙ rw c refl),
          )
      go (err c m) e q = cc

  -- A target that has a row in any of the tables is refused, and no row moves, so that a retry
  -- after a transfer that failed partway writes nothing over what arrived.
  pub transfer-refused :
      (names : List String) (source target : Database Row) (name : String)
      → contains name names ≡ true
      → target.tables name ≢ []
      → let (r, tables) = transfer commit names source target in
        ((out : TransferOutcome) → r ≢ ok out) × (tables ≡ target.tables)
  unfolding transfer
  transfer-refused names source target name c filled = go (verified commit names source target) refl
    where
      go :
          (r : Result (Unit {0}))
          → verified commit names source target ≡ r
          → let (answer, tables) =
              unless_refused commit r target.tables
                (copy_each commit names source.tables target.tables) in
            ((out : TransferOutcome) → answer ≢ ok out) × (tables ≡ target.tables)
      go (ok tt) e = absurd (
          filled (
            refuse_a_filled_target-ok names target.tables (verified-ok names source target e) name
              c))
      go (err cl m) e = ((λ out q. cc), refl)
