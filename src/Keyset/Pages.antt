-- ===== src/Keyset/Pages.antt =====
-- A page of rows after a cursor, and the pages that follow it one from the other. A cursor travels as
-- a text.
use yt_scrapper.Base.{
  take-drop, inl, inr, ◌⊎◌, ℕ, zero, suc, ◌<◌, ◌≤◌, String, Bool, Option, none, some, List, [], ◌∷◌,
  ◌++◌, length, map, select, take, drop, ◌&&◌, ◌>>=◌, >>=-eq-some, some-inj, arith, ◌≡◌, refl, sym,
  ap, ◌∙◌,
}
use yt_scrapper.Keyset.{Cursor, KeysetLaws, DistinctKeys, last_key, is_after, ordered}
use yt_scrapper.Keyset.Next.{ordered-next}

pub record Page (A : Type 0) : Type 0 where
  pub rows : List A
  pub cursor : Option String

module _ {A : Type 0} (key : A → Cursor) (before : Cursor → Cursor → Bool)
    (encode : Cursor → String) (decode : Option String → Option (Option Cursor)) where
  -- The rows that match, after a cursor, in order.
  unfoldable pub matching : (A → Bool) → Option Cursor → List A → List A
  unfolding ordered
  matching p cursor rows =
      ordered key before (select (λ a. p a && is_after key before cursor a) rows)

  -- `rows[-1]`
  abbrev last_of : List A → Option String
  last_of [] = none
  last_of (a ∷ as') = some (encode (last_key key a as'))

  abbrev cursor_after : List A → List A → Option String
  cursor_after shown [] = none
  cursor_after shown (_ ∷ _) = last_of shown

  -- One row more is asked for than is shown, so as to know whether there is another page.
  abbrev page_of : ℕ → List A → Page A
  page_of limit found = record {
    rows = take limit found;
    cursor = cursor_after (take limit found) (drop limit found);
  }

  unfoldable pub page_at : (A → Bool) → ℕ → List A → Option Cursor → Page A
  unfolding matching last_key
  page_at p limit rows c = page_of limit (take (suc limit) (matching p c rows))

  -- `none` is a cursor that is refused.
  unfoldable pub page : (A → Bool) → ℕ → List A → Option String → Option (Page A)
  unfolding page_at
  page p limit rows cursor = decode cursor >>= λ c. some (page_at p limit rows c)

  pub page-eq-some :
      (p : A → Bool) (limit : ℕ) (rows : List A) (s : Option String) {pg : Page A}
      → page p limit rows s ≡ some pg
      → (c : Option Cursor) × (decode s ≡ some c) × (page_at p limit rows c ≡ pg)
  unfolding page
  page-eq-some p limit rows s h = let (c, e, e') = >>=-eq-some (decode s) _ h in (c, e, some-inj e')

-- A client that follows the cursors of a listing. The fuel is the number of pages that it asks for.
module _ {A : Type 0} (ask : Option String → Option (Page A)) where
  abbrev and_rest : (Option String → Option (List A)) → List A → Option String → Option (List A)
  and_rest rest rows none = some rows
  and_rest rest rows (some c) = rest (some c) >>= λ as'. some (rows ++ as')

  unfoldable pub read_pages : ℕ → Option String → Option (List A)
  read_pages zero cursor = none
  read_pages (suc n) cursor = ask cursor >>= λ pg. and_rest (read_pages n) pg.rows pg.cursor

module _ {A : Type 0} where
  take-take : (k : ℕ) (l : List A) → take k (take (suc k) l) ≡ take k l
  take-take zero l = refl
  take-take (suc k) [] = refl
  take-take (suc k) (x ∷ l) = ap (λ r. x ∷ r) (take-take k l)

  -- Whether there is one row more than a page shows.
  drop-take :
      (k : ℕ) (l : List A)
      → ((drop k (take (suc k) l) ≡ []) × (drop k l ≡ []) × (take k l ≡ l))
        ⊎ ((y : A) × (drop k (take (suc k) l) ≡ y ∷ []) × (length (drop k l) ≤ length l))
  drop-take zero [] = inl (refl, refl, refl)
  drop-take zero (x ∷ l) = inr (x, refl, omega arith)
  drop-take (suc k) [] = inl (refl, refl, refl)
  drop-take (suc k) (x ∷ l) = elim (drop-take k l) [
    | inl (e, f, g) ↦ inl (e, f, ap (λ r. x ∷ r) g)
    | inr (y, e, le) ↦ inr (y, e, omega (arith, le))
  ]

module _ {A : Type 0} (key : A → Cursor) (before : Cursor → Cursor → Bool)
    (laws : KeysetLaws before) (encode : Cursor → String)
    (decode : Option String → Option (Option Cursor))
    (decodes : (c : Cursor) → decode (some (encode c)) ≡ some (some c)) where
  page_of-some :
      (x : A) (k : ℕ) (l m : List A)
      → drop k (take (suc k) l) ≡ m
      → page_of key before encode decode (suc k) (take (suc (suc k)) (x ∷ l)) ≡ record {
        rows = x ∷ take k l;
        cursor = cursor_after key before encode decode (x ∷ take k l) m;
      }
  page_of-some x k l m e =
      ap {A = List A}
        (λ r. record {
          rows = x ∷ r;
          cursor = cursor_after key before encode decode (x ∷ r) (drop k (take (suc k) l));
        })
        (take-take k l)
      ∙ ap {A = List A}
          (λ r. record {
            rows = x ∷ take k l;
            cursor = cursor_after key before encode decode (x ∷ take k l) r;
          })
          e

  page-some :
      (p : A → Bool) (k : ℕ) (rows : List A) (s : Option String) (c : Option Cursor) (x : A)
      (l m : List A)
      → decode s ≡ some c
      → matching key before encode decode p c rows ≡ x ∷ l
      → drop k (take (suc k) l) ≡ m
      → page key before encode decode p (suc k) rows s
        ≡ some (record {
          rows = x ∷ take k l;
          cursor = cursor_after key before encode decode (x ∷ take k l) m;
        })
  unfolding page
  page-some p k rows s c x l m e h t = rw (e, h) (ap (λ r. some r) (page_of-some x k l m t))

  page-none :
      (p : A → Bool) (k : ℕ) (rows : List A) (s : Option String) (c : Option Cursor)
      → decode s ≡ some c
      → matching key before encode decode p c rows ≡ []
      → page key before encode decode p (suc k) rows s ≡ some (record { rows = []; cursor = none })
  unfolding page
  page-none p k rows s c e h = rw (e, h) refl

  matching-next :
      (p : A → Bool) (k : ℕ) (rows : List A) (c : Option Cursor) (x : A) (l : List A)
      → DistinctKeys key rows
      → matching key before encode decode p c rows ≡ x ∷ l
      → matching key before encode decode p (some (last_key key x (take k l))) rows ≡ drop k l
  unfolding matching
  matching-next p k rows c x l d m = ordered-next key before laws p c rows x k l d m

  -- Following the cursors from anywhere gives all that matches after it.
  pub read_pages-matching :
      (p : A → Bool) (k : ℕ) (rows : List A) (n : ℕ) (s : Option String) (c : Option Cursor)
      (l : List A)
      → DistinctKeys key rows
      → decode s ≡ some c
      → matching key before encode decode p c rows ≡ l
      → length l < n
      → read_pages (page key before encode decode p (suc k) rows) n s ≡ some l
  unfolding read_pages
  read_pages-matching p k rows zero s c l d e m lt = absurd (omega (arith, lt))
  read_pages-matching p k rows (suc n) s c [] d e m lt = rw (page-none p k rows s c e m) refl
  read_pages-matching p k rows (suc n) s c (x ∷ l) d e m lt = elim (drop-take k l) [
    | inl (none_left, _, all) ↦ rw (page-some p k rows s c x l [] e m none_left, all) refl
    | inr (y, one_left, le) ↦
        let c' = last_key key x (take k l) in
        let ih =
          read_pages-matching p k rows n (some (encode c')) (some c') (drop k l) d (decodes c')
            (matching-next p k rows c x l d m) (omega (arith, le, lt)) in
        rw (page-some p k rows s c x l (y ∷ []) e m one_left, ih)
          (ap (λ r. some (x ∷ r)) (take-drop k l))
  ]

-- Pages that show something of each row.
abbrev pub map_page : {A B : Type 0} → (A → B) → Page A → Page B
map_page f pg = record { rows = map f pg.rows; cursor = pg.cursor }

module _ {A B : Type 0} (f : A → B) (ask : Option String → Option (Page A))
    (ask' : Option String → Option (Page B))
    (shows : (s : Option String) (pg : Page A)
      → ask s ≡ some pg
      → ask' s ≡ some (map_page f pg)) where
  map-append : (xs ys : List A) → map f (xs ++ ys) ≡ map f xs ++ map f ys
  map-append [] ys = refl
  map-append (x ∷ xs) ys = cc (map-append xs ys)

  and_rest-map :
      (rest : Option String → Option (List A)) (rest' : Option String → Option (List B))
      (rows : List A) (c : Option String) {l : List A}
      → ((s : Option String) (m : List A) → rest s ≡ some m → rest' s ≡ some (map f m))
      → and_rest ask rest rows c ≡ some l
      → and_rest ask' rest' (map f rows) c ≡ some (map f l)
  and_rest-map rest rest' rows none ih h = ap (λ m. some (map f m)) (some-inj h)
  and_rest-map rest rest' rows (some c) ih h =
      let (m, e, h1) = >>=-eq-some (rest (some c)) _ h in
      rw (ih (some c) m e)
        (ap some (sym (map-append rows m)) ∙ ap (λ r. some (map f r)) (some-inj h1))

  pub read_pages-map :
      (n : ℕ) (s : Option String) (l : List A)
      → read_pages ask n s ≡ some l
      → read_pages ask' n s ≡ some (map f l)
  unfolding read_pages
  read_pages-map zero s l h = cc
  read_pages-map (suc n) s l h =
      let (pg, e, h1) = >>=-eq-some (ask s) _ h in
      rw (shows s pg e) (
        and_rest-map (read_pages ask n) (read_pages ask' n) pg.rows pg.cursor (read_pages-map n) h1)
