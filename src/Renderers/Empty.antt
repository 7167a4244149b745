-- ===== src/Renderers/Empty.antt =====
-- `collect`: an answer is all that there is, and an empty one is one that the response says is empty.
use text.Mathlib.TextPositions.{eq_refl}
use yt_scrapper.Base.{
  String, Bool, true, false, List, [], ◌∷◌, any, contains, same, ◌≡◌, refl, sym, subst, arith, inl,
  inr, ◌↔◌, Bool-cases, eq_iff,
}
use yt_scrapper.Json.{Json, Members}
use yt_scrapper.Errors.{ok}
use yt_scrapper.Renderers.{find_all, find_each, is_any, or_marked, collect_renderers}
use yt_scrapper.Renderers.Among.{Among, first, StoredUnder, among-left, among-right, among-cases}
use yt_scrapper.Renderers.Stored.{find_all-StoredUnder}

-- A mapping that is stored under one of some names.
abbrev pub StoredUnderAny : List String → Members → Json → Type 0
StoredUnderAny names ms node =
    (name : String) × (contains name names ≡ true) × StoredUnder name ms node

module _ (node : Json) where
  found-stored :
      {ms : Members} (names : List String)
      → Among ms (find_each names node)
      → StoredUnderAny names ms node
  unfolding find_each
  found-stored [] a = elim a [ ]
  found-stored {ms} (n ∷ names) a = elim (among-cases (find_all n node) (find_each names node) a) [
    | inl b ↦ (n, ground (arith, eq_refl n), (find_all-StoredUnder n {ms = ms} node).0 b)
    | inr b ↦ let (name, c, stored) = found-stored names b in (name, ground (arith, c), stored)
  ]

  stored-found :
      {ms : Members} (names : List String) (name : String)
      → contains name names ≡ true
      → StoredUnder name ms node
      → Among ms (find_each names node)
  unfolding find_each
  stored-found [] name c s = cc
  stored-found {ms} (n ∷ names) name c s = elim (Bool-cases (same n name)) [
    | inl e ↦
        let same_name : name ≡ n = sym ((eq_iff n name).0 e) in
        among-left (find_all n node) (find_each names node) (
          (find_all-StoredUnder n {ms = ms} node).1
            (subst (λ x. StoredUnder x ms node) same_name s))
    | inr e ↦
        among-right (find_all n node) (find_each names node)
          (stored-found names name (ground (arith, c, e)) s)
  ]

  any-marked :
      (markers : List String)
      → any (λ marker. is_any (find_all marker node)) markers ≡ true
      → (ms : Members) × StoredUnderAny markers ms node
  any-marked [] h = cc
  any-marked (m ∷ markers) h = go (find_all m node) refl (any-marked markers)
    where
      go :
          (l : List Members)
          → find_all m node ≡ l
          → (any (λ marker. is_any (find_all marker node)) markers ≡ true
              → (ms : Members) × StoredUnderAny markers ms node)
          → (ms : Members) × StoredUnderAny (m ∷ markers) ms node
      go [] e rest =
          let (ms, (name, c, stored)) = rest (ground (arith, h, e)) in
          (ms, (name, ground (arith, c), stored))
      go (ms ∷ l) e rest = (
        ms,
        (
          m,
          ground (arith, eq_refl m),
          (find_all-StoredUnder m {ms = ms} node).0 (subst (Among ms) (sym e) first),
        ),
      )

  or_marked-ok :
      (contract : String) (accepted : List String) (marked : Bool) (l : List Members)
      {found : List Members}
      → or_marked contract accepted node marked l ≡ ok found
      → (found ≡ l) × (found ≡ [] → marked ≡ true)
  or_marked-ok contract accepted true [] h = (cc, λ e. refl)
  or_marked-ok contract accepted false [] h = cc
  or_marked-ok contract accepted marked (m ∷ l) {found} h =
      let same_found : Path (List Members) (m ∷ l) found = cc in
      (sym same_found, λ e. absurd (cc (same_found, e)))

  -- A collection that returns gives exactly the mappings that the response stores under one of the
  -- names, at any depth, and it gives none only where the response has one of the marks of an empty
  -- answer: otherwise it raises.
  pub collect_renderers-ok :
      (accepted : List String) (contract : String) (markers : List String) {found : List Members}
      → collect_renderers node accepted contract markers ≡ ok found
      → ((ms : Members) → Among ms found ↔ StoredUnderAny accepted ms node)
        × (found ≡ [] → (ms : Members) × StoredUnderAny markers ms node)
  unfolding collect_renderers
  collect_renderers-ok accepted contract markers {found} h =
      let marked = any (λ marker. is_any (find_all marker node)) markers in
      let (all, empty) = or_marked-ok contract accepted marked (find_each accepted node) h in
      (
        λ ms. (
          (λ a. found-stored accepted (subst (Among ms) all a)),
          (λ (name, c, stored). subst (Among ms) (sym all) (stored-found accepted name c stored)),
        ),
        (λ e. any-marked markers (empty e)),
      )
