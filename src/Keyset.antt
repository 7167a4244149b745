-- ===== src/Keyset.antt =====
-- Rows in the order of a key, an instant and an identifier, and the rows after a cursor: what
-- flatten.py and api/application.py ask of the database.
pub mod Order
pub mod Next
pub mod Pages
use yt_scrapper.Base.{
  String, Bool, true, false, Option, none, some, List, [], ◌∷◌, Time, ltb, ◌==◌, ◌&&◌, ◌||◌, All,
  ◌≡◌, ◌≢◌, if◌then◌else◌,
}

abbrev pub Cursor : Type 0
Cursor = Time × String

-- The row comparison `(a, b) < (c, d)` of SQL, by the database's order of texts.
abbrev pub precedes : (String → String → Bool) → Cursor → Cursor → Bool
precedes earlier (s, i) (t, j) = ltb s t || (s == t && earlier i j)

-- The order of texts is a strict total one.
pub record CollationLaws (earlier : String → String → Bool) : Type 0 where
  pub earlier_irrefl : (a : String) → earlier a a ≡ false
  pub earlier_trans :
      (a b c : String) → earlier a b ≡ true → earlier b c ≡ true → earlier a c ≡ true
  pub earlier_total : (a b : String) → a ≢ b → earlier a b ≡ false → earlier b a ≡ true

-- An order of keys that is strict, and total between keys of different identifiers.
pub record KeysetLaws (before : Cursor → Cursor → Bool) : Type 0 where
  pub before_irrefl : (c : Cursor) → before c c ≡ false
  pub before_trans : (c d e : Cursor) → before c d ≡ true → before d e ≡ true → before c e ≡ true
  pub before_total : (c d : Cursor) → c.1 ≢ d.1 → before c d ≡ false → before d c ≡ true

module _ {A : Type 0} (key : A → Cursor) where
  -- No identifier occurs twice.
  abbrev pub DistinctKeys : List A → Type 0
  DistinctKeys [] = Unit {0}
  DistinctKeys (a ∷ as') = All (λ b. (key a).1 ≢ (key b).1) as' × DistinctKeys as'

  -- The key of the last row of a list.
  unfoldable pub last_key : A → List A → Cursor
  last_key a [] = key a
  last_key a (b ∷ bs) = last_key b bs

  module _ (before : Cursor → Cursor → Bool) where
    abbrev pub is_after : Option Cursor → A → Bool
    is_after none a = true
    is_after (some c) a = before c (key a)

    -- `ORDER BY`, by insertion.
    unfoldable pub insert_ordered : A → List A → List A
    insert_ordered a [] = a ∷ []
    insert_ordered a (b ∷ bs) =
        if before (key b) (key a) then b ∷ insert_ordered a bs else a ∷ b ∷ bs

    unfoldable pub ordered : List A → List A
    unfolding insert_ordered
    ordered [] = []
    ordered (a ∷ as') = insert_ordered a (ordered as')
