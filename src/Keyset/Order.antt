-- ===== src/Keyset/Order.antt =====
-- The rows that a query returns in the order of its key: they are sorted, and selecting among them
-- commutes with ordering.
use yt_scrapper.Base.{
  suc, String, Bool, true, false, List, [], ◌∷◌, select, length, All, All-mono, arith, ◌≡◌, ◌≢◌,
  refl, sym, ap, ◌∙◌, inl, inr, Bool-cases, if◌then◌else◌,
}
use yt_scrapper.Keyset.{
  Cursor, precedes, CollationLaws, KeysetLaws, DistinctKeys, insert_ordered, ordered,
}

-- The comparison of keys is such an order, and so is its reverse.
pub precedes_laws :
    (earlier : String → String → Bool) → CollationLaws earlier → KeysetLaws (precedes earlier)
precedes_laws earlier laws = record {
  before_irrefl = λ (s, i). ground (arith, laws.earlier_irrefl i);
  before_trans = λ (s, i) (t, j) (u, k) p q. ground (arith, laws.earlier_trans i j k);
  before_total = λ (s, i) (t, j) n p. ground (arith, laws.earlier_total i j n);
}

pub reverse_laws :
    (before : Cursor → Cursor → Bool) → KeysetLaws before → KeysetLaws (λ c d. before d c)
reverse_laws before laws = record {
  before_irrefl = laws.before_irrefl;
  before_trans = λ c d e p q. laws.before_trans e d c q p;
  before_total = λ c d n p. laws.before_total d c (λ q. n (sym q)) p;
}

-- Ordering loses no row and adds none.
module _ {A : Type 0} (key : A → Cursor) (before : Cursor → Cursor → Bool) where
  length-insert_ordered :
      (a : A) (bs : List A) → length (insert_ordered key before a bs) ≡ suc (length bs)
  unfolding insert_ordered
  length-insert_ordered a [] = refl
  length-insert_ordered a (b ∷ bs) = ground (arith, length-insert_ordered a bs)

  pub length-ordered : (xs : List A) → length (ordered key before xs) ≡ length xs
  unfolding ordered
  length-ordered [] = refl
  length-ordered (x ∷ xs) =
      length-insert_ordered x (ordered key before xs) ∙ ap suc (length-ordered xs)

module _ {A : Type 0} where
  select-All : (P : A → Type 0) (p : A → Bool) (xs : List A) → All P xs → All P (select p xs)
  select-All P p [] h = tt
  select-All P p (x ∷ xs) h = elim (Bool-cases (p x)) [
    | inl e ↦ rw e (h.0, select-All P p xs h.1)
    | inr e ↦ rw e (select-All P p xs h.1)
  ]

module _ {A : Type 0} (key : A → Cursor) (before : Cursor → Cursor → Bool)
    (laws : KeysetLaws before) where
  open laws use {before_irrefl, before_trans, before_total}

  pub select-DistinctKeys :
      (p : A → Bool) (xs : List A) → DistinctKeys key xs → DistinctKeys key (select p xs)
  select-DistinctKeys p [] h = tt
  select-DistinctKeys p (x ∷ xs) h = elim (Bool-cases (p x)) [
    | inl e ↦ rw e (select-All (λ b. (key x).1 ≢ (key b).1) p xs h.0, select-DistinctKeys p xs h.1)
    | inr e ↦ rw e (select-DistinctKeys p xs h.1)
  ]

  abbrev lt : A → A → Bool
  lt a b = before (key a) (key b)

  lt_total : (a b : A) → (key a).1 ≢ (key b).1 → lt a b ≡ false → lt b a ≡ true
  lt_total a b n p = before_total (key a) (key b) n p

  abbrev pub IsSorted : List A → Type 0
  IsSorted [] = Unit {0}
  IsSorted (a ∷ as') = All (λ b. lt a b ≡ true) as' × IsSorted as'

  insert_ordered-All :
      (P : A → Type 0) (a : A) (bs : List A)
      → P a
      → All P bs
      → All P (insert_ordered key before a bs)
  unfolding insert_ordered
  insert_ordered-All P a [] p h = (p, tt)
  insert_ordered-All P a (b ∷ bs) p h = elim (Bool-cases (lt b a)) [
    | inl e ↦ rw e (h.0, insert_ordered-All P a bs p h.1)
    | inr e ↦ rw e (p, (h.0, h.1))
  ]

  insert_ordered-IsSorted :
      (a : A) (bs : List A)
      → All (λ b. (key a).1 ≢ (key b).1) bs
      → IsSorted bs
      → IsSorted (insert_ordered key before a bs)
  unfolding insert_ordered
  insert_ordered-IsSorted a [] n h = (tt, tt)
  insert_ordered-IsSorted a (b ∷ bs) n h = elim (Bool-cases (lt b a)) [
    | inl e ↦
        rw e
          (insert_ordered-All (λ c. lt b c ≡ true) a bs e h.0, insert_ordered-IsSorted a bs n.1 h.1)
    | inr e ↦
        let f : lt a b ≡ true = lt_total b a (λ q. n.0 (sym q)) e in
        rw e ((f, All-mono bs (λ c q. before_trans (key a) (key b) (key c) f q) h.0), h)
  ]

  pub ordered-All : (P : A → Type 0) (xs : List A) → All P xs → All P (ordered key before xs)
  unfolding ordered
  ordered-All P [] h = tt
  ordered-All P (x ∷ xs) h =
      insert_ordered-All P x (ordered key before xs) h.0 (ordered-All P xs h.1)

  pub ordered-IsSorted : (xs : List A) → DistinctKeys key xs → IsSorted (ordered key before xs)
  unfolding ordered
  ordered-IsSorted [] h = tt
  ordered-IsSorted (x ∷ xs) h =
      insert_ordered-IsSorted x (ordered key before xs)
        (ordered-All (λ b. (key x).1 ≢ (key b).1) xs h.0) (ordered-IsSorted xs h.1)

  insert_ordered-front :
      (a : A) (bs : List A) → All (λ b. lt b a ≡ false) bs → insert_ordered key before a bs ≡ a ∷ bs
  unfolding insert_ordered
  insert_ordered-front a [] h = refl
  insert_ordered-front a (b ∷ bs) h = rw (h.0)

  not_lt_of_lt : (a b c : A) → lt b a ≡ false → lt b c ≡ true → lt c a ≡ false
  not_lt_of_lt a b c p q = elim (Bool-cases (lt c a)) [
    | inl r ↦ absurd (cc (before_trans (key b) (key c) (key a) q r, p))
    | inr r ↦ r
  ]

  select-insert_ordered :
      (p : A → Bool) (a : A) (bs : List A)
      → IsSorted bs
      → select p (insert_ordered key before a bs)
        ≡ (if p a then insert_ordered key before a (select p bs) else select p bs)
  unfolding insert_ordered
  select-insert_ordered p a [] h = refl
  select-insert_ordered p a (b ∷ bs) h = elim (Bool-cases (lt b a)) [
    | inl e ↦ rw e (ground (arith, select-insert_ordered p a bs h.1, e))
    | inr e ↦
        let front = insert_ordered-front a (select p bs) (
          select-All (λ c. lt c a ≡ false) p bs
            (All-mono bs (λ c q. not_lt_of_lt a b c e q) h.0)) in
        rw e (ground (arith, front, e))
  ]

  -- Selecting and ordering commute.
  pub select-ordered :
      (p : A → Bool) (xs : List A)
      → DistinctKeys key xs
      → select p (ordered key before xs) ≡ ordered key before (select p xs)
  unfolding ordered
  select-ordered p [] h = refl
  select-ordered p (x ∷ xs) h = ground (
    arith,
    select-insert_ordered p x (ordered key before xs) (ordered-IsSorted xs h.1),
    select-ordered p xs h.1,
  )
