-- ===== src/Tests/Collation.antt =====
-- The order of texts by code points, as an order of identifiers.
use Prim.Native.Char.{Char, code}
use Prim.Native.Nat.{Ordering, compare as compare_nat}
use Prim.Native.String.{compare, then}
use Prim.Native.String.compare.{nil-cons, cons-nil, cons-cons}
use text.Mathlib.TextEquality.{codes_equal}
use text.Mathlib.TextPositions.{compare_refl}
use yt_scrapper.Base.{String, Bool, true, false, ◌≡◌, ◌≢◌, refl, arith}
use yt_scrapper.Keyset.{CollationLaws}

abbrev is_lt : Ordering → Bool
is_lt Ordering.lt = true
is_lt _ = false

abbrev pub earlier : String → String → Bool
earlier a b = is_lt (compare a b)

not_before_nil : (c : Char) (s : String) → earlier (String.◌∷◌ c s) String.[] ≡ false
not_before_nil c s = λ i. is_lt (cons-nil c s i)

nil_before : (c : Char) (s : String) → earlier String.[] (String.◌∷◌ c s) ≡ true
nil_before c s = λ i. is_lt (nil-cons c s i)

earlier-cons :
    (c : Char) (s : String) (d : Char) (t : String)
    → earlier (String.◌∷◌ c s) (String.◌∷◌ d t)
      ≡ is_lt (then (compare_nat (code c) (code d)) (compare s t))
earlier-cons c s d t = λ i. is_lt (cons-cons c d s t i)

earlier_irrefl : (a : String) → earlier a a ≡ false
earlier_irrefl a = rw (compare_refl a)

earlier_trans : (a b c : String) → earlier a b ≡ true → earlier b c ≡ true → earlier a c ≡ true
earlier_trans String.[] String.[] c p q = q
earlier_trans String.[] (String.◌∷◌ y b) String.[] p q = absurd (cc (q, not_before_nil y b))
earlier_trans String.[] (String.◌∷◌ y b) (String.◌∷◌ z c) p q = nil_before z c
earlier_trans (String.◌∷◌ x a) String.[] c p q = absurd (cc (p, not_before_nil x a))
earlier_trans (String.◌∷◌ x a) (String.◌∷◌ y b) String.[] p q = absurd (cc (q, not_before_nil y b))
earlier_trans (String.◌∷◌ x a) (String.◌∷◌ y b) (String.◌∷◌ z c) p q =
    ground
      (arith, earlier_trans a b c, earlier-cons x a y b, earlier-cons y b z c, earlier-cons x a z c)

earlier_total : (a b : String) → a ≢ b → earlier a b ≡ false → earlier b a ≡ true
earlier_total String.[] String.[] n p = absurd (n refl)
earlier_total String.[] (String.◌∷◌ y b) n p = absurd (cc (p, nil_before y b))
earlier_total (String.◌∷◌ x a) String.[] n p = nil_before x a
earlier_total (String.◌∷◌ x a) (String.◌∷◌ y b) n p =
    ground (arith, earlier_total a b, codes_equal x y, earlier-cons x a y b, earlier-cons y b x a)

pub code_point_order : CollationLaws earlier
code_point_order = record {
  earlier_irrefl = earlier_irrefl;
  earlier_trans = earlier_trans;
  earlier_total = earlier_total;
}
