-- ===== src/Collection/Bundle.antt =====
-- What a bundle says of its parts.
use yt_scrapper.Base.{
  String, Bool, true, false, ◌||◌, List, [], ◌∷◌, ◌++◌, map, same, All, arith, ◌≡◌, ◌⊎◌, inl, inr,
  eq_iff, refl, contains,
}
use text.Mathlib.TextPositions.{eq_refl}
use yt_scrapper.Json.{Json, Members, end, member}
use yt_scrapper.Registry.{Registry}
use yt_scrapper.Collection.State.{
  Outside, Library, Collected, Degradation, Gathered, Attempt, returned, raised, crashed, Do, next,
}
use yt_scrapper.Collection.Service.{put_member, dumped, with_part, try_part, gather}

abbrev has_member : String → Members → Bool
has_member k end = false
has_member k (member n v rest) = same n k || has_member k rest

abbrev lost : List Degradation → List String
lost ds = map (λ d. d.source) ds

-- A part was collected, or it is named among those that were not.
abbrev IsTold : Gathered → String → Type 0
IsTold g part = (has_member part g.parts ≡ true) ⊎ (contains part (lost g.degradations) ≡ true)

has_member-put_member :
    (k : String) (v : Json) (j : String) (m : Members)
    → has_member j (put_member k v m) ≡ (same k j || has_member j m)
unfolding put_member
has_member-put_member k v j end = refl
has_member-put_member k v j (member n u rest) =
    ground (arith, eq_iff n k, eq_iff n j, eq_iff k j, has_member-put_member k v j rest)

contains-append :
    (k j : String) (ks : List String) → contains k (ks ++ j ∷ []) ≡ (same j k || contains k ks)
contains-append k j [] = refl
contains-append k j (i ∷ ks) = ground (arith, contains-append k j ks)

lost-append :
    (ds : List Degradation) (d : Degradation) → lost (ds ++ d ∷ []) ≡ lost ds ++ d.source ∷ []
lost-append [] d = refl
lost-append (e ∷ ds) d = cc (lost-append ds d)

module _ (o : Outside) (registry : Registry) (has_database : Bool) where
  -- What parts come to that are tried after others: each is told of, and so is what was told of
  -- before; or an exception leaves that is not a domain error.
  abbrev Follows : Gathered → List String → Attempt Gathered → Type 0
  Follows g parts (returned g') =
      All (IsTold g') parts × ((other : String) → IsTold g other → IsTold g' other)
  Follows g parts (raised c m) = ⊥
  Follows g parts crashed = Unit {0}

  collected-Follows :
      (part : String) (v : Json) (g : Gathered)
      → Follows g (part ∷ []) (returned (record g { parts = put_member part v g.parts }))
  collected-Follows part v g =
      ((inl (rw (has_member-put_member part v part g.parts) (simp (eq_refl))), tt), told)
    where
      told :
          (other : String)
          → IsTold g other
          → IsTold (record g { parts = put_member part v g.parts }) other
      told other (inl h) = inl (rw (has_member-put_member part v other g.parts) (ground arith))
      told other (inr h) = inr h

  lost-Follows :
      (part : String) (d : Degradation) (g : Gathered)
      → d.source ≡ part
      → Follows g (part ∷ []) (returned (record g { degradations = g.degradations ++ d ∷ [] }))
  lost-Follows part d g e = (
    (
      inr (
          rw (lost-append g.degradations d, contains-append part d.source (lost g.degradations), e)
            (simp (eq_refl))),
      tt,
    ),
    told,
  )
    where
      told :
          (other : String)
          → IsTold g other
          → IsTold (record g { degradations = g.degradations ++ d ∷ [] }) other
      told other (inl h) = inl h
      told other (inr h) = inr (
          rw (lost-append g.degradations d, contains-append other d.source (lost g.degradations))
            (ground arith))

  with_part-Follows :
      (part : String) (g : Gathered) (a : Attempt Collected)
      → Follows g (part ∷ []) (with_part o registry has_database part g a)
  with_part-Follows part g (returned c) = collected-Follows part (dumped c.result) g
  with_part-Follows part g (raised c m) =
      lost-Follows part (record { source = part; code = c; detail = m }) g refl
  with_part-Follows part g crashed = tt

  next-Follows :
      (part : String) (parts : List String) (g : Gathered) (r : Attempt Gathered × Library)
      (f : Gathered → Do Gathered)
      → Follows g (part ∷ []) r.0
      → ((g' : Gathered) (w : Library) → Follows g' parts (f g' w).0)
      → Follows g (part ∷ parts) (next r f).0
  next-Follows part parts g (returned g', w) f h k = joined (f g' w).0 (k g' w)
    where
      joined : (r : Attempt Gathered) → Follows g' parts r → Follows g (part ∷ parts) r
      joined (returned g2) q = ((q.1 part h.0.0, q.0), λ other t. q.1 other (h.1 other t))
      joined (raised c m) q = q
      joined crashed q = q
  next-Follows part parts g (raised c m, w) f h k = h
  next-Follows part parts g (crashed, w) f h k = h

  gather-Follows :
      (collect_part : String → Do Collected) (parts : List String) (g : Gathered) (w : Library)
      → Follows g parts (gather o registry has_database collect_part parts g w).0
  unfolding gather
  gather-Follows collect_part [] g w = (tt, λ other t. t)
  gather-Follows collect_part (part ∷ parts) g w =
      next-Follows part parts g (try_part o registry has_database collect_part part g w)
        (gather o registry has_database collect_part parts)
        (with_part-Follows part g (collect_part part w).0) (gather-Follows collect_part parts)

  -- A bundle that is gathered tells of each of its parts; no domain error is raised.
  abbrev IsFull : List String → Attempt Gathered → Type 0
  IsFull parts (returned g) = All (IsTold g) parts
  IsFull parts (raised c m) = ⊥
  IsFull parts crashed = Unit {0}

  -- The loop over the parts of a bundle raises no domain error, whatever the parts raise: unless an
  -- exception of another class leaves it, each part is among what was collected, or is named among
  -- what was not.
  gather-IsFull :
      (collect_part : String → Do Collected) (parts : List String) (g : Gathered) (w : Library)
      → IsFull parts (gather o registry has_database collect_part parts g w).0
  gather-IsFull collect_part parts g w =
      full (gather o registry has_database collect_part parts g w).0
        (gather-Follows collect_part parts g w)
    where
      full : (r : Attempt Gathered) → Follows g parts r → IsFull parts r
      full (returned g') h = h.0
      full (raised c m) h = h
      full crashed h = h
