-- ===== src/Keyset/Next.antt =====
-- The next page: what comes after the last row of a page, or of a batch, is what it has left.
use yt_scrapper.Base.{
  ℕ, zero, suc, Bool, true, false, Option, none, some, List, [], ◌∷◌, ◌&&◌, select, take, drop, All,
  select-select, select-cong, arith, ◌≡◌, refl, sym, subst, ap, ◌∙◌, inl, inr, Bool-cases,
}
use yt_scrapper.Keyset.{Cursor, KeysetLaws, DistinctKeys, last_key, is_after, ordered}
use yt_scrapper.Keyset.Order.{
  IsSorted, select-DistinctKeys, ordered-All, ordered-IsSorted, select-ordered,
}

module _ {A : Type 0} (key : A → Cursor) (before : Cursor → Cursor → Bool)
    (laws : KeysetLaws before) where
  open laws use {before_irrefl, before_trans}

  -- The key of the last row of a batch is not before that of its first.
  last_key-after :
      (x : A) (n : ℕ) (l : List A)
      → IsSorted key before laws (x ∷ l)
      → before (last_key key x (take n l)) (key x) ≡ false
  unfolding last_key
  last_key-after x zero l h = before_irrefl (key x)
  last_key-after x (suc n) [] h = before_irrefl (key x)
  last_key-after x (suc n) (y ∷ l) h =
      elim (Bool-cases (before (last_key key y (take n l)) (key x))) [
        | inl e ↦
            let f = before_trans (last_key key y (take n l)) (key x) (key y) e h.0.0 in
            absurd (cc (f, last_key-after y n l h.1))
        | inr e ↦ e
      ]

  select-all_after :
      (c : Cursor) (l : List A)
      → All (λ b. before c (key b) ≡ true) l
      → select (is_after key before (some c)) l ≡ l
  select-all_after c [] h = refl
  select-all_after c (b ∷ l) h = rw (h.0) (ap (λ r. b ∷ r) (select-all_after c l h.1))

  -- What lies after the last row of a batch is what the batch has left.
  select-last_key :
      (x : A) (n : ℕ) (l : List A)
      → IsSorted key before laws (x ∷ l)
      → select (is_after key before (some (last_key key x (take n l)))) (x ∷ l) ≡ drop n l
  unfolding last_key
  select-last_key x zero l h = rw (before_irrefl (key x)) (select-all_after (key x) l h.0)
  select-last_key x (suc n) [] h = rw (before_irrefl (key x))
  select-last_key x (suc n) (y ∷ l) h =
      rw (last_key-after x (suc n) (y ∷ l) h) (select-last_key y n l h.1)

  -- A cursor lies before a key.
  abbrev reaches_key : Option Cursor → Cursor → Bool
  reaches_key none d = true
  reaches_key (some c) d = before c d

  last_key-reached :
      (cursor : Option Cursor) (x : A) (n : ℕ) (l : List A)
      → All (λ b. reaches_key cursor (key b) ≡ true) (x ∷ l)
      → reaches_key cursor (last_key key x (take n l)) ≡ true
  unfolding last_key
  last_key-reached cursor x zero l h = h.0
  last_key-reached cursor x (suc n) [] h = h.0
  last_key-reached cursor x (suc n) (y ∷ l) h = last_key-reached cursor y n l h.1

  reaches_key-after :
      (p : A → Bool) (cursor : Option Cursor) (a : A)
      → (p a && is_after key before cursor a) ≡ true
      → reaches_key cursor (key a) ≡ true
  reaches_key-after p none a h = refl
  reaches_key-after p (some c) a h = ground arith

  reached :
      (p : A → Bool) (cursor : Option Cursor) (rows : List A)
      → All
          (λ b. reaches_key cursor (key b) ≡ true)
          (select (λ a. p a && is_after key before cursor a) rows)
  reached p cursor [] = tt
  reached p cursor (a ∷ rows) = elim (Bool-cases (p a && is_after key before cursor a)) [
    | inl e ↦ rw e (reaches_key-after p cursor a e, reached p cursor rows)
    | inr e ↦ rw e (reached p cursor rows)
  ]

  -- To be after a later cursor is to be after the earlier one, and after the later.
  after-later :
      (p : A → Bool) (cursor : Option Cursor) (d : Cursor) (a : A)
      → reaches_key cursor d ≡ true
      → (p a && is_after key before (some d) a)
        ≡ ((p a && is_after key before cursor a) && is_after key before (some d) a)
  after-later p none d a h = ground arith
  after-later p (some c) d a h = ground (arith, before_trans c d (key a) h)

  -- The query of the next page returns what the page before has left.
  pub ordered-next :
      (p : A → Bool) (cursor : Option Cursor) (rows : List A) (x : A) (n : ℕ) (l : List A)
      → DistinctKeys key rows
      → ordered key before (select (λ a. p a && is_after key before cursor a) rows) ≡ x ∷ l
      → ordered key before
          (select (λ a. p a && is_after key before (some (last_key key x (take n l))) a) rows)
        ≡ drop n l
  ordered-next p cursor rows x n l d e =
      let q = λ (a : A). p a && is_after key before cursor a in
      let found = select q rows in
      let c = last_key key x (take n l) in
      let distinct = select-DistinctKeys key before laws q rows d in
      let sorted : IsSorted key before laws (x ∷ l) =
        subst (IsSorted key before laws) e (ordered-IsSorted key before laws found distinct) in
      let reached : All (λ b. reaches_key cursor (key b) ≡ true) (x ∷ l) =
        subst (All (λ b. reaches_key cursor (key b) ≡ true)) e (
          ordered-All key before laws (λ b. reaches_key cursor (key b) ≡ true) found
            (reached p cursor rows)) in
      let later = last_key-reached cursor x n l reached in
      ap (ordered key before) (
        select-cong (λ a. p a && is_after key before (some c) a)
          (λ a. q a && is_after key before (some c) a) rows (λ a. after-later p cursor c a later)
        ∙ sym (select-select (is_after key before (some c)) q rows))
      ∙ sym (select-ordered key before laws (is_after key before (some c)) found distinct)
      ∙ ap (select (is_after key before (some c))) e
      ∙ select-last_key x n l sorted
