-- ===== src/Transfer/Rows.antt =====
-- One table: its batches, what their commits leave, and the count.
use yt_scrapper.Base.{
  take-drop, length-drop, ℕ, zero, suc, ◌+◌, ◌≤◌, String, Option, none, some, List, [], ◌∷◌, ◌++◌,
  ◌==◌, length, drop, ◌≡◌, refl, sym, ap, ◌∙◌, arith, inl, inr, Bool-cases,
}
use yt_scrapper.Errors.{Result, ok, err, configuration, not_arrived}
use yt_scrapper.Transfer.{batches, after_commit, write_each, counted, copy_table}
use yt_scrapper.Base.{append-nil, append_assoc}

module _ {Row : Type 0} where
  -- All batches, one after the other.
  abbrev joined : List (List Row) → List Row
  joined [] = []
  joined (b ∷ bs) = b ++ joined bs

  -- As many batches as there are rows are enough for all of them.
  joined-batches : (n : ℕ) (rows : List Row) → length rows ≤ n → joined (batches n rows) ≡ rows
  unfolding batches
  joined-batches zero [] h = refl
  joined-batches zero (r ∷ rows) h = absurd (omega (arith, h))
  joined-batches (suc n) [] h = refl
  joined-batches (suc n) (r ∷ rows) h =
      rw (joined-batches n (drop 499 rows) (omega (arith, h, length-drop 499 rows)))
        (take-drop 500 (r ∷ rows))

  -- What a commit does that does not raise: the rows of the batch come after those that are there.
  abbrev pub Appends : (String → List Row → List Row → Option (List Row)) → Type 0
  Appends commit =
      (name : String) (old b new : List Row) → commit name old b ≡ some new → new ≡ old ++ b

module _ {Row : Type 0} (commit : String → List Row → List Row → Option (List Row)) where
  write_each-ok :
      (name : String) (total : ℕ) (bs : List (List Row)) (written : ℕ) (rows : List Row) {n : ℕ}
      {rows' : List Row}
      → Appends commit
      → write_each commit name total bs written rows ≡ (ok n, rows')
      → rows' ≡ rows ++ joined bs
  unfolding write_each
  write_each-ok name total [] written rows {n} {rows'} appends h =
      let same_rows : rows ≡ rows' = cc in sym same_rows ∙ sym (append-nil rows)
  write_each-ok name total (b ∷ bs) written rows {n} {rows'} appends h =
      go (commit name rows b) refl h
        (λ new q. write_each-ok name total bs (written + length b) new appends q)
    where
      go :
          (o : Option (List Row))
          → commit name rows b ≡ o
          → after_commit commit name total written rows o
              (write_each commit name total bs (written + length b))
            ≡ (ok n, rows')
          → ((new : List Row)
              → write_each commit name total bs (written + length b) new ≡ (ok n, rows')
              → rows' ≡ new ++ joined bs)
          → rows' ≡ rows ++ (b ++ joined bs)
      go none e q rest = cc
      go (some new) e q rest =
          rest new q
          ∙ ap (λ l. l ++ joined bs) (appends name rows b new e)
          ∙ append_assoc rows b (joined bs)

  not_counted :
      (rows : List Row) {n total found : ℕ} {name : String} {rows' : List Row}
      → ¬ (
          Path
            (Result ℕ × List Row)
            (err configuration (not_arrived name total found), rows)
            (ok n, rows'))
  not_counted rows h = cc

  counted-ok :
      (name : String) (values : List Row) (r : Result ℕ × List Row) {n : ℕ} {rows : List Row}
      → counted commit name values r ≡ (ok n, rows)
      → (written : ℕ) × (r ≡ (ok written, rows))
        × (n ≡ length values)
        × (length rows ≡ length values)
  counted-ok name values (ok written, rows) {n} {rows = rows'} h =
      elim (Bool-cases (length rows == length values)) [
        | inl e ↦
            let q : Path (Result ℕ × List Row) (ok (length values), rows) (ok n, rows') =
              rw e at h in
            let same_rows : rows ≡ rows' = cc in
            let same_count : length values ≡ n = cc in
            (written, cc, sym same_count, rw (← same_rows) (ground (arith, e)))
        | inr e ↦ absurd (not_counted rows (rw e at h))
      ]
  counted-ok name values (err c m, rows) h = cc

  -- A table that was copied counts as many rows as the source has of it; where commits append, it
  -- has these rows after its own.
  pub copy_table-ok :
      (name : String) (values rows : List Row) {n : ℕ} {rows' : List Row}
      → Appends commit
      → copy_table commit name values rows ≡ (ok n, rows')
      → (n ≡ length values) × (rows' ≡ rows ++ values)
  unfolding copy_table
  copy_table-ok name values rows appends h =
      let (written, e, count, arrived) = counted-ok name values _ h in
      (
        count,
        write_each-ok name (length values) (batches (length values) values) 0 rows appends e
            ∙ ap (λ l. rows ++ l) (joined-batches (length values) values (omega arith)),
      )
