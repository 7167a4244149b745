-- ===== src/Models/Rows.antt =====
-- Lemmas on the rows of the `jobs` table: one row is changed, and the others are not.
use yt_scrapper.Base.{
  String, Bool, true, false, none, some, [], ◌∷◌, ◌++◌, same, ◌≡◌, ◌≢◌, refl, if◌then◌else◌, arith,
  eq_iff, All, ⊤, inl, inr, Bool-cases,
}
use mathlib.Core.Option
use yt_scrapper.Models.{Job, Jobs, get, modify, update_where}

-- A change that leaves the primary key alone.
abbrev pub KeepsKey : (Job → Job) → Type 0
KeepsKey f = (j : Job) → (f j).identifier ≡ j.identifier

-- No primary key is listed twice.
abbrev pub Distinct : Jobs → Type 0
Distinct [] = ⊤
Distinct (j ∷ js) = (get j.identifier js ≡ none) × Distinct js

pub get-modify :
    (k l : String) (f : Job → Job) (js : Jobs)
    → KeepsKey f
    → get l (modify k f js) ≡ (if same k l then Option.map f (get l js) else get l js)
unfolding get modify
get-modify k l f [] h = ground arith
get-modify k l f (j ∷ js) h = ground (
  arith,
  h j,
  eq_iff k l,
  eq_iff j.identifier k,
  eq_iff j.identifier l,
  eq_iff (f j).identifier l,
  get-modify k l f js h,
)

pub same_self : (k : String) → same k k ≡ true
same_self k = (eq_iff k k).1 refl

pub same_of_eq : (k l : String) → k ≡ l → same k l ≡ true
same_of_eq k l = (eq_iff k l).1

pub get-modify_self :
    (k : String) (f : Job → Job) {j : Job} (js : Jobs)
    → KeepsKey f
    → get k js ≡ some j
    → get k (modify k f js) ≡ some (f j)
get-modify_self k f js h e = ground (arith, get-modify k k f js h, same_self k)

get-modify-none :
    (k l : String) (f : Job → Job) (js : Jobs)
    → KeepsKey f
    → get l js ≡ none
    → get l (modify k f js) ≡ none
get-modify-none k l f js h e = ground (arith, get-modify k l f js h)

pub get-modify_ne :
    (k l : String) (f : Job → Job) (js : Jobs)
    → KeepsKey f
    → k ≢ l
    → get l (modify k f js) ≡ get l js
get-modify_ne k l f js h ne = ground (arith, get-modify k l f js h, eq_iff k l)

pub modify-Distinct :
    (k : String) (f : Job → Job) (js : Jobs) → KeepsKey f → Distinct js → Distinct (modify k f js)
unfolding modify
modify-Distinct k f [] h d = tt
modify-Distinct k f (j ∷ js) h d =
    ground (arith, h j, modify-Distinct k f js h d.1, get-modify-none k j.identifier f js h d.0)

-- The row that is found carries the key it was looked up by.
pub get-identifier : (k : String) {j : Job} (js : Jobs) → get k js ≡ some j → j.identifier ≡ k
unfolding get
get-identifier k [] e = cc
get-identifier k {j} (i ∷ js) e = ground (arith, eq_iff i.identifier k, get-identifier k {j = j} js)

-- A property that a change keeps is kept by every row.
pub All-modify :
    (P : Job → Type 0) (k : String) (f : Job → Job) (js : Jobs)
    → ((j : Job) → P j → P (f j))
    → All P js
    → All P (modify k f js)
unfolding modify
All-modify P k f [] keep h = tt
All-modify P k f (j ∷ js) keep h = ground (arith, keep j h.0, All-modify P k f js keep h.1)

pub All-get :
    (P : Job → Type 0) (k : String) {j : Job} (js : Jobs) → All P js → get k js ≡ some j → P j
unfolding get
All-get P k [] h e = cc
All-get P k {j} (i ∷ js) h e = elim (Bool-cases (same i.identifier k)) [
  | inl t ↦ let q : i ≡ j = ground (arith, e) in rw q at h.0
  | inr t ↦ All-get P k js h.1 (ground arith)
]

-- Where the rows under the key have a second property after it, and the others have it already.
pub All-modify_to :
    (P Q : Job → Type 0) (k : String) (f : Job → Job) (js : Jobs)
    → ((j : Job) → same j.identifier k ≡ true → P j → Q (f j))
    → ((j : Job) → P j → Q j)
    → All P js
    → All Q (modify k f js)
unfolding modify
All-modify_to P Q k f [] change keep h = tt
All-modify_to P Q k f (j ∷ js) change keep h = elim (Bool-cases (same j.identifier k)) [
  | inl e ↦ ground (arith, change j e h.0, All-modify_to P Q k f js change keep h.1)
  | inr e ↦ ground (arith, keep j h.0, All-modify_to P Q k f js change keep h.1)
]

-- The same for an update of every row that passes a test.
pub All-update_where :
    (P : Job → Type 0) (p : Job → Bool) (f : Job → Job) (js : Jobs)
    → ((j : Job) → p j ≡ true → P j → P (f j))
    → All P js
    → All P (update_where p f js).1
unfolding update_where
All-update_where P p f [] keep h = tt
All-update_where P p f (j ∷ js) keep h = elim (Bool-cases (p j)) [
  | inl e ↦ ground (arith, keep j e h.0, All-update_where P p f js keep h.1)
  | inr e ↦ ground (arith, All-update_where P p f js keep h.1)
]

get-update_where-none :
    (p : Job → Bool) (f : Job → Job) (l : String) (js : Jobs)
    → KeepsKey f
    → get l js ≡ none
    → get l (update_where p f js).1 ≡ none
unfolding get update_where
get-update_where-none p f l [] h e = refl
get-update_where-none p f l (j ∷ js) h e = ground (arith, h j, get-update_where-none p f l js h)

pub update_where-Distinct :
    (p : Job → Bool) (f : Job → Job) (js : Jobs)
    → KeepsKey f
    → Distinct js
    → Distinct (update_where p f js).1
unfolding update_where
update_where-Distinct p f [] h d = tt
update_where-Distinct p f (j ∷ js) h d = ground (
  arith,
  h j,
  update_where-Distinct p f js h d.1,
  get-update_where-none p f j.identifier js h d.0,
)

-- A row under a new key may be added.
get-append_none :
    (l : String) (new : Job) (js : Jobs)
    → get l js ≡ none
    → same new.identifier l ≡ false
    → get l (js ++ new ∷ []) ≡ none
unfolding get
get-append_none l new [] e ne = ground arith
get-append_none l new (j ∷ js) e ne = ground (arith, get-append_none l new js)

pub append-Distinct :
    (new : Job) (js : Jobs) → get new.identifier js ≡ none → Distinct js → Distinct (js ++ new ∷ [])
unfolding get
append-Distinct new [] e d = (refl, tt)
append-Distinct new (j ∷ js) e d = ground (
  arith,
  eq_iff new.identifier j.identifier,
  eq_iff j.identifier new.identifier,
  get-append_none j.identifier new js d.0,
  append-Distinct new js,
)

pub get-append_some :
    (l : String) (new : Job) {j : Job} (js : Jobs)
    → get l js ≡ some j
    → get l (js ++ new ∷ []) ≡ some j
unfolding get
get-append_some l new [] e = cc
get-append_some l new {j} (i ∷ js) e = ground (arith, get-append_some l new {j = j} js)

modify-absent : (k : String) (f : Job → Job) (js : Jobs) → get k js ≡ none → modify k f js ≡ js
unfolding get modify
modify-absent k f [] e = refl
modify-absent k f (j ∷ js) e = ground (arith, modify-absent k f js)

-- Where keys are distinct, a change reaches the one row that a lookup finds.
pub All-modify_at :
    (P : Job → Type 0) (k : String) (f : Job → Job) (js : Jobs) (j : Job)
    → Distinct js
    → get k js ≡ some j
    → P (f j)
    → All P js
    → All P (modify k f js)
unfolding get modify
All-modify_at P k f [] j d e p h = tt
All-modify_at P k f (i ∷ js) j d e p h = elim (Bool-cases (same i.identifier k)) [
  | inl t ↦
      let q : i ≡ j = ground (arith, e) in
      let a : get k js ≡ none = ground (arith, d.0, eq_iff i.identifier k) in
      let r : modify k f js ≡ js = modify-absent k f js a in
      let s : modify k f (i ∷ js) ≡ f j ∷ js = ground (arith, q, r) in rw s (p, h.1)
  | inr t ↦
      let r : modify k f (i ∷ js) ≡ i ∷ modify k f js = ground arith in
      let u : get k js ≡ some j = ground (arith, e) in
      rw r (h.0, All-modify_at P k f js j d.1 u p h.1)
]
