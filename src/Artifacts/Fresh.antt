-- ===== src/Artifacts/Fresh.antt =====
-- Which answer the index gives.
use yt_scrapper.Base.{
  suc, ◌+◌, ◌≤◌, ◌<◌, String, true, Option, none, some, List, [], ◌∷◌, ◌++◌, Time, leb, same,
  if◌then◌else◌, All, All-mono, ap, ◌≡◌, refl, ◌⊎◌, inl, inr, Bool-cases, arith, eq_iff,
}
use yt_scrapper.Models.Rows.{same_self}
use yt_scrapper.Artifacts.{
  Artifact, Observation, observed_row, add_observation, answers, newer_of, fresh, count_for,
}

newer_of-none : (a : Artifact) → newer_of a none ≡ a
unfolding newer_of
newer_of-none a = refl

newer_of-cases :
    (a b : Artifact)
    → ((newer_of a (some b) ≡ a) × (b.fetched_at ≤ a.fetched_at))
      ⊎ ((newer_of a (some b) ≡ b) × (a.fetched_at ≤ b.fetched_at))
unfolding newer_of
newer_of-cases a b = elim (Bool-cases (leb b.fetched_at a.fetched_at)) [
  | inl e ↦ inl (rw e, ground arith)
  | inr e ↦ inr (rw e, ground arith)
]

module _ (key : String) (now : Time) where
  -- A row that was collected for the question and is still good.
  pub record IsAnswer (a : Artifact) : Type 0 where
    pub is_of_question : a.fingerprint ≡ key
    pub is_good : now < a.fresh_until

  answers-IsAnswer : (a : Artifact) → answers key now a ≡ true → IsAnswer a
  unfolding answers
  answers-IsAnswer a h = record {
    is_of_question = ground (arith, eq_iff a.fingerprint key);
    is_good = ground arith;
  }

  IsAnswer-answers : (a : Artifact) → IsAnswer a → answers key now a ≡ true
  unfolding answers
  IsAnswer-answers a h = ground (arith, h.is_of_question, h.is_good, eq_iff a.fingerprint key)

  -- What the lookup came to, against the rows: no row answers, or the newest of those that do.
  abbrev IsNewest : Option Artifact → List Artifact → Type 0
  IsNewest none rows = All (λ a. ¬ IsAnswer a) rows
  IsNewest (some b) rows = IsAnswer b × All (λ a. IsAnswer a → a.fetched_at ≤ b.fetched_at) rows

  newer_of-IsNewest :
      (a : Artifact) (o : Option Artifact) (rows : List Artifact)
      → IsAnswer a
      → IsNewest o rows
      → IsNewest (some (newer_of a o)) (a ∷ rows)
  newer_of-IsNewest a none rows h i =
      rw (newer_of-none a) (h, ((λ _. omega arith), All-mono rows (λ b n p. absurd (n p)) i))
  newer_of-IsNewest a (some b) rows h i = elim (newer_of-cases a b) [
    | inl (e, le) ↦ rw e (
      h,
      (
        (λ _. omega arith),
        All-mono rows (λ c n p. omega (arith, n p, le, ap (λ x. x.fetched_at) e)) i.1,
      ),
    )
    | inr (e, le) ↦ rw e (
      i.0,
      ((λ _. le), All-mono rows (λ c n p. omega (arith, n p, ap (λ x. x.fetched_at) e)) i.1),
    )
  ]

  skip-IsNewest :
      (a : Artifact) (o : Option Artifact) (rows : List Artifact)
      → ¬ IsAnswer a
      → IsNewest o rows
      → IsNewest o (a ∷ rows)
  skip-IsNewest a none rows h i = (h, i)
  skip-IsNewest a (some b) rows h i = (i.0, ((λ p. absurd (h p)), i.1))

  -- The lookup returns the newest row that was collected for the question and is still good, and
  -- nothing exactly when there is no such row.
  fresh-IsNewest : (rows : List Artifact) → IsNewest (fresh key now rows) rows
  unfolding fresh
  fresh-IsNewest [] = tt
  fresh-IsNewest (a ∷ rows) = elim (Bool-cases (answers key now a)) [
    | inl e ↦
        rw e (
          newer_of-IsNewest a (fresh key now rows) rows (answers-IsAnswer a e)
            (fresh-IsNewest rows))
    | inr e ↦ rw e (
        skip-IsNewest a (fresh key now rows) rows
          (λ p. let q = IsAnswer-answers a p in absurd (cc q)) (fresh-IsNewest rows))
  ]

module _ (identifier : String) (at : Time) (o : Observation) where
  fresh-append :
      (now : Time) (rows : List Artifact)
      → All (λ a. a.fetched_at < at) rows
      → now < at + o.freshness
      → fresh o.fingerprint now (rows ++ observed_row identifier at o ∷ [])
        ≡ some (observed_row identifier at o)
  unfolding fresh answers newer_of
  fresh-append now [] older good = ground (arith, same_self o.fingerprint)
  fresh-append now (a ∷ rows) older good = ground (arith, fresh-append now rows older.1 good)

  count_for-append :
      (key : String) (rows : List Artifact)
      → count_for key (rows ++ observed_row identifier at o ∷ [])
        ≡ (if same o.fingerprint key then suc (count_for key rows) else count_for key rows)
  unfolding count_for
  count_for-append key [] = ground arith
  count_for-append key (a ∷ rows) = ground (arith, count_for-append key rows)

  -- What is recorded is what the lookup returns, until its freshness is over, if no row is newer
  -- or as new; and it adds one to the history of its question and nothing to that of any other.
  pub add_observation-fresh :
      (now : Time) (rows : List Artifact)
      → All (λ a. a.fetched_at < at) rows
      → now < at + o.freshness
      → let (row, rows') = add_observation identifier at o rows in
        (fresh o.fingerprint now rows' ≡ some row)
        × ((key : String)
            → count_for key rows'
              ≡ (if same o.fingerprint key then suc (count_for key rows) else count_for key rows))
  unfolding add_observation
  add_observation-fresh now rows older good =
      (fresh-append now rows older good, λ key. count_for-append key rows)
