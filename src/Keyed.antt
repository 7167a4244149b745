-- ===== src/Keyed.antt =====
-- `INSERT ... ON CONFLICT`: a table with a key, written one row at a time.
use yt_scrapper.Base.{Bool, true, false, List, [], ◌∷◌, All, arith, ◌≡◌, refl, if◌then◌else◌}

-- Whether two rows have one key; whether an existing row stays as it is in the face of a new one;
-- and what it becomes if not.
pub record Keyed {ℓ} (A : Type ℓ) : Type ℓ where
  pub same_key : A → A → Bool
  pub covers : A → A → Bool
  pub merge : A → A → A

pub record KeyedLaws {ℓ} {A : Type ℓ} (k : Keyed A) : Type ℓ where
  pub key_refl : (a : A) → k.same_key a a ≡ true
  pub covers_refl : (a : A) → k.covers a a ≡ true
  pub merge_key : (e r x : A) → k.same_key (k.merge e r) x ≡ k.same_key e x
  pub merge_covers : (e r : A) → k.covers (k.merge e r) r ≡ true
  pub merge_keeps :
      (e r x : A) → k.covers e r ≡ false → k.covers e x ≡ true → k.covers (k.merge e r) x ≡ true

module _ {ℓ} {A : Type ℓ} (k : Keyed A) where
  open k use {same_key, covers, merge}

  unfoldable pub upsert : A → List A → List A
  upsert r [] = r ∷ []
  upsert r (e ∷ t) =
      if same_key e r then (if covers e r then e ∷ t else merge e r ∷ t) else e ∷ upsert r t

  -- The rows of one statement, which do not have a key in common.
  unfoldable pub upsert_all : List A → List A → List A
  upsert_all [] t = t
  upsert_all (r ∷ rs) t = upsert_all rs (upsert r t)

  -- The row with the key of `r` stays in the face of `r`.
  abbrev pub holds : A → List A → Bool
  holds r [] = false
  holds r (e ∷ t) = if same_key e r then covers e r else holds r t

  upsert-held : (r : A) (t : List A) → holds r t ≡ true → upsert r t ≡ t
  unfolding upsert
  upsert-held r [] h = cc
  upsert-held r (e ∷ t) h = ground (arith, upsert-held r t)

  -- Rows that are held change nothing.
  pub upsert_all-held : (rs t : List A) → All (λ r. holds r t ≡ true) rs → upsert_all rs t ≡ t
  unfolding upsert_all
  upsert_all-held [] t h = refl
  upsert_all-held (r ∷ rs) t h = rw (upsert-held r t h.0) (upsert_all-held rs t h.1)

  module _ (laws : KeyedLaws k) where
    open laws use {key_refl, covers_refl, merge_key, merge_covers, merge_keeps}

    holds-upsert_self : (r : A) (t : List A) → holds r (upsert r t) ≡ true
    unfolding upsert
    holds-upsert_self r [] = ground (arith, key_refl r, covers_refl r)
    holds-upsert_self r (e ∷ t) =
        ground (arith, holds-upsert_self r t, merge_key e r r, merge_covers e r)

    holds-upsert : (x r : A) (t : List A) → holds x t ≡ true → holds x (upsert r t) ≡ true
    unfolding upsert
    holds-upsert x r [] h = cc
    holds-upsert x r (e ∷ t) h =
        ground (arith, holds-upsert x r t, merge_key e r x, merge_keeps e r x)

    -- What a table holds it goes on holding.
    pub holds-upsert_all :
        (x : A) (rs t : List A) → holds x t ≡ true → holds x (upsert_all rs t) ≡ true
    unfolding upsert_all
    holds-upsert_all x [] t h = h
    holds-upsert_all x (r ∷ rs) t h = holds-upsert_all x rs (upsert r t) (holds-upsert x r t h)

    -- Rows that have been written are held.
    pub holds-upsert_all_self : (rs t : List A) → All (λ r. holds r (upsert_all rs t) ≡ true) rs
    unfolding upsert_all
    holds-upsert_all_self [] t = tt
    holds-upsert_all_self (r ∷ rs) t = (
      holds-upsert_all r rs (upsert r t) (holds-upsert_self r t),
      holds-upsert_all_self rs (upsert r t),
    )
