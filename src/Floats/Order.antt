-- ===== src/Floats/Order.antt =====
-- The order of the floats under `min` and `max`.
use yt_scrapper.Base.{◌≡◌, true, arith, inl, inr, Bool-cases}
use yt_scrapper.Floats.{FloatOps, FloatLaws, min, max}

module _ (fl : FloatOps) (laws : FloatLaws fl) where
  open fl use {Float, leb}

  pub min-le_left : (a b : Float) → leb (min fl a b) a ≡ true
  min-le_left a b = elim (Bool-cases (leb a b)) [
    | inl p ↦ rw p (laws.le_refl a)
    | inr p ↦ rw p (laws.le_total a b p)
  ]

  min-le_right : (a b : Float) → leb (min fl a b) b ≡ true
  min-le_right a b = elim (Bool-cases (leb a b)) [ inl p ↦ rw p p | inr p ↦ rw p (laws.le_refl b) ]

  pub max-ge_left : (a b : Float) → leb a (max fl a b) ≡ true
  max-ge_left a b = elim (Bool-cases (leb b a)) [
    | inl p ↦ rw p (laws.le_refl a)
    | inr p ↦ rw p (laws.le_total b a p)
  ]

  max-ge_right : (a b : Float) → leb b (max fl a b) ≡ true
  max-ge_right a b = elim (Bool-cases (leb b a)) [ inl p ↦ rw p p | inr p ↦ rw p (laws.le_refl b) ]

  pub le-min : (x a b : Float) → leb x a ≡ true → leb x b ≡ true → leb x (min fl a b) ≡ true
  le-min x a b p q = ground arith

  pub max-le : (a b x : Float) → leb a x ≡ true → leb b x ≡ true → leb (max fl a b) x ≡ true
  max-le a b x p q = ground arith
