-- ===== src/Registry/Laws.antt =====
-- The registry answers for what was registered in it.
use yt_scrapper.Base.{
  String, true, none, some, List, [], ◌∷◌, ◌++◌, same, contains, is_some, if◌then◌else◌, arith,
  eq_iff, ◌≡◌, refl, ◌||◌, Option-cases, ◌⊎◌, inl, inr,
}
use yt_scrapper.Errors.{ok, err, configuration, already_registered}
use yt_scrapper.Registry.{Source, Registry, find, register, get, kinds}
use yt_scrapper.Texts.{insert}

pub contains-insert :
    (k l : String) (ls : List String) → contains k (insert l ls) ≡ (same l k || contains k ls)
unfolding insert
contains-insert k l [] = refl
contains-insert k l (m ∷ ls) = ground (arith, contains-insert k l ls)

-- `kinds` lists exactly the kinds that `get` answers for.
pub contains-kinds : (k : String) (r : Registry) → contains k (kinds r) ≡ is_some (find k r)
unfolding kinds find
contains-kinds k [] = refl
contains-kinds k (s ∷ r) = ground (arith, contains-insert k s.kind (kinds r), contains-kinds k r)

find-append :
    (k : String) (s : Source) (r : Registry)
    → find k (r ++ s ∷ [])
      ≡ (if is_some (find k r) then find k r else (if same s.kind k then some s else none))
unfolding find
find-append k s [] = refl
find-append k s (t ∷ r) = ground (arith, find-append k s r)

-- A source of a new kind is registered: `get` finds it under its kind, and every other kind still
-- has the answer that it had. A kind that is taken is refused as a configuration error.
register_lem :
    (s : Source) (r : Registry)
    → ((is_some (find s.kind r) ≡ true)
        × (register s r ≡ err configuration (already_registered s.kind)))
      ⊎ ((r' : Registry) × (register s r ≡ ok r')
          × ((k : String) → get k r' ≡ (if same s.kind k then ok s else get k r)))
unfolding register get
register_lem s r = elim (Option-cases (find s.kind r)) [
  | inr (t, e) ↦ inl (rw e, rw e)
  | inl e ↦ inr (r ++ s ∷ [], rw e, λ k. ground (arith, find-append k s r, eq_iff s.kind k))
]
