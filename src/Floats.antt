-- ===== src/Floats.antt =====
-- Python floats, taken as a parameter: the operations that the program uses, and the facts about
-- finite IEEE 754 values that its arithmetic relies on.
pub mod Order
use yt_scrapper.Base.{ℕ, ◌^◌, ◌<◌, ◌≤◌, ◌≡◌, Bool, true, Option, some, not, if◌then◌else◌}

pub record FloatOps : Type 1 where
  pub Float : Type 0
  -- The literals: `decimal 95 2` is `0.95`.
  pub decimal : ℕ → ℕ → Float
  -- A conversion from `int`; `none` is the `OverflowError` of an `int` that is too large.
  pub of_int : ℕ → Option Float
  pub add : Float → Float → Float
  pub sub : Float → Float → Float
  pub mul : Float → Float → Float
  pub div : Float → Float → Float
  pub leb : Float → Float → Bool
  -- `timedelta(seconds=x)`
  pub microseconds : Float → ℕ
  -- `int(x)`, for an `x` that is not negative.
  pub truncate : Float → ℕ

module _ (fl : FloatOps) where
  open fl use {Float, leb}

  abbrev pub lt : Float → Float → Bool
  lt a b = not (leb b a)

  -- `min(a, b)` and `max(a, b)` keep the first of two equal values.
  abbrev pub min : Float → Float → Float
  min a b = if lt b a then b else a

  abbrev pub max : Float → Float → Float
  max a b = if lt a b then b else a

-- The facts relied on, for finite values.
pub record FloatLaws (fl : FloatOps) : Type 0 where
  pub le_refl : (a : fl.Float) → fl.leb a a ≡ true
  pub le_trans : (a b c : fl.Float) → fl.leb a b ≡ true → fl.leb b c ≡ true → fl.leb a c ≡ true
  pub le_total : (a b : fl.Float) → fl.leb a b ≡ Bool.false → fl.leb b a ≡ true
  -- Adding the reciprocal of a value of 1.0 or more does not lower it.
  pub le_add_reciprocal :
      (w : fl.Float)
      → fl.leb (fl.decimal 1 0) w ≡ true
      → fl.leb w (fl.add w (fl.div (fl.decimal 1 0) w)) ≡ true
  -- Half of a value of 1.0 or more is not above it.
  pub half_le :
      (w : fl.Float)
      → fl.leb (fl.decimal 1 0) w ≡ true
      → fl.leb (fl.div w (fl.decimal 2 0)) w ≡ true
  -- 0.95 of a value of 0.0 or more lies between 0.0 and it.
  pub shrink_le :
      (x : fl.Float)
      → fl.leb (fl.decimal 0 0) x ≡ true
      → fl.leb (fl.mul x (fl.decimal 95 2)) x ≡ true
  -- Whole literals are ordered as the numbers are.
  pub decimal_mono : (a b : ℕ) → a ≤ b → fl.leb (fl.decimal a 0) (fl.decimal b 0) ≡ true
  pub truncate_mono : (a b : fl.Float) → fl.leb a b ≡ true → fl.truncate a ≤ fl.truncate b
  -- The powers of two up to 2 ** 1023 are floats.
  pub of_int_power : (k : ℕ) → k < 1024 → (x : fl.Float) × (fl.of_int (2 ^ k) ≡ some x)
