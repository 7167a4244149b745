-- ===== src/Keys/Charges.antt =====
-- What one service accepts over a sequence of requests: the allowance of a key, and the keys that are revoked.
use yt_scrapper.Base.{
  ℕ, ◌+◌, ◌<◌, ◌≤◌, String, Bool, true, ◌&&◌, some, List, [], ◌∷◌, ◌++◌, Time, All, ltb, leb,
  length, same, select, arith, ◌≡◌, refl, subst, sym, ◌∙◌, ap, eq_iff, inl, inr, Bool-cases,
  if◌then◌else◌,
}
use yt_scrapper.Keys.Rows.{matched-All, verify-Comes, Adds, answer-All}
use yt_scrapper.Keys.{
  ApiKey, ApiKeyService, Recent, minute, is_recent, stamps_of, put_stamps, charge, minted, mint,
  revoke, Request, mints, revokes, verifies, answer, accepted,
}

-- A minute that begins at an instant.
abbrev in_minute : Time → Time → Bool
in_minute w t = leb w t && ltb t (w + minute)

-- How often a key was accepted in it.
abbrev pub times : String → Time → List (String × Time) → ℕ
times k w as' = length (select (λ a. same a.0 k && in_minute w a.1) as')

-- The readings of the clock do not go back.
abbrev IsOrdered : Time → List Request → Type 0
IsOrdered t [] = Unit {0}
IsOrdered t (mints _ _ _ ∷ rs) = IsOrdered t rs
IsOrdered t (revokes _ _ ∷ rs) = IsOrdered t rs
IsOrdered t (verifies _ _ reading ∷ rs) = (t ≤ reading) × IsOrdered reading rs

-- A row that is not of a key, or that allows no more than a number of requests.
abbrev Allows : String → ℕ → ApiKey → Type 0
Allows k allowance r = same r.identifier k ≡ true → r.requests_per_minute ≤ allowance

abbrev MintsWithin : String → ℕ → Request → Type 0
MintsWithin k allowance (mints label n d) = same d.identifier k ≡ true → n ≤ allowance
MintsWithin k allowance _ = Unit {0}

stamps_of-put_stamps :
    (k j : String) (stamps : List Time) (recent : Recent)
    → stamps_of k (put_stamps j stamps recent) ≡ (if same j k then stamps else stamps_of k recent)
unfolding stamps_of put_stamps
stamps_of-put_stamps k j stamps [] = refl
stamps_of-put_stamps k j stamps ((i, old) ∷ recent) =
    ground (arith, eq_iff j k, eq_iff i k, eq_iff i j, stamps_of-put_stamps k j stamps recent)

-- What a charge leaves for any key.
charge-eq-some :
    (j : String) (allowance : ℕ) (now : Time) (recent : Recent) {recent' : Recent}
    → charge j allowance now recent ≡ some recent'
    → (length (select (is_recent now) (stamps_of j recent)) < allowance)
      × ((k : String)
          → stamps_of k recent' ≡ (
              if same j k
              then select (is_recent now) (stamps_of j recent) ++ now ∷ []
              else stamps_of k recent))
unfolding charge
charge-eq-some j allowance now recent {recent'} h =
    let stamps = select (is_recent now) (stamps_of j recent) ++ now ∷ [] in
    let e : recent' ≡ put_stamps j stamps recent = ground arith in
    (ground arith, λ k. ap (stamps_of k) e ∙ stamps_of-put_stamps k j stamps recent)

count_in : Time → List Time → ℕ
count_in w stamps = length (select (in_minute w) stamps)

-- The stamps of a minute are among those that a reading inside it or before it keeps.
count_in-kept :
    (w now : Time) (stamps : List Time)
    → now < w + minute
    → count_in w (select (is_recent now) stamps) ≡ count_in w stamps
unfolding count_in
count_in-kept w now [] h = refl
count_in-kept w now (s ∷ stamps) h = ground (arith, count_in-kept w now stamps h)

count_in-append :
    (w now : Time) (stamps : List Time)
    → count_in w (stamps ++ now ∷ []) ≡ count_in w stamps + (if in_minute w now then 1 else 0)
unfolding count_in
count_in-append w now [] = ground arith
count_in-append w now (s ∷ stamps) = ground (arith, count_in-append w now stamps)

count_in-le-length : (w : Time) (stamps : List Time) → count_in w stamps ≤ length stamps
unfolding count_in
count_in-le-length w [] = ground arith
count_in-le-length w (s ∷ stamps) = ground (arith, count_in-le-length w stamps)

-- One acceptance, counted.
abbrev one_if : Bool → ℕ
one_if b = if b then 1 else 0

charge-count_in :
    (k j : String) (w : Time) (allowance : ℕ) (now : Time) (recent : Recent) {recent' : Recent}
    → charge j allowance now recent ≡ some recent'
    → now < w + minute
    → (count_in w (stamps_of k recent')
        ≡ count_in w (stamps_of k recent) + one_if (same j k && in_minute w now))
      × (same j k ≡ true → count_in w (stamps_of k recent) < allowance)
charge-count_in k j w allowance now recent h l =
    let stamps = stamps_of j recent in
    let (below, after) = charge-eq-some j allowance now recent h in
    let kept = count_in-kept w now stamps l in
    let appended = count_in-append w now (select (is_recent now) stamps) in
    let bound = count_in-le-length w (select (is_recent now) stamps) in
    let at_k = after k in (ground (arith, eq_iff j k), ground (arith, eq_iff j k))

module _ (hash : String → String) (k : String) where
  MintsWithin-Adds :
      (allowance : ℕ) (q : Request) → MintsWithin k allowance q → Adds hash (Allows k allowance) q
  unfolding minted
  MintsWithin-Adds allowance (mints label n d) m = m
  MintsWithin-Adds allowance (revokes j at) m = tt
  MintsWithin-Adds allowance (verifies presented at reading) m = tt

  answer-Allows :
      (allowance : ℕ) (q : Request) (s : ApiKeyService)
      → MintsWithin k allowance q
      → All (Allows k allowance) s.keys
      → All (Allows k allowance) (answer hash q s).1.keys
  answer-Allows allowance q s m ps =
      answer-All hash (Allows k allowance) (λ r at p. p) (λ r at p. p) q s
        (MintsWithin-Adds allowance q m) ps

  -- One charge, for a count that the allowance and the stamps bound.
  charge-count :
      (j : String) (w : Time) (n allowance count : ℕ) (t reading : Time) (recent : Recent)
      {recent' : Recent}
      → charge j n reading recent ≡ some recent'
      → t ≤ reading
      → (same j k ≡ true → n ≤ allowance)
      → count ≤ allowance
      → (t < w + minute → count ≤ count_in w (stamps_of k recent))
      → let count' = count + one_if (same j k && in_minute w reading) in
        (count' ≤ allowance) × (reading < w + minute → count' ≤ count_in w (stamps_of k recent'))
  charge-count j w n allowance count t reading recent c o allows l h = (
    elim (Bool-cases (same j k && in_minute w reading)) [
      | inl e ↦
          let q : reading < w + minute = ground arith in
          ground (
            arith,
            (charge-count_in k j w n reading recent c q).1 (ground arith),
            allows (ground arith),
            h (omega arith),
          )
      | inr e ↦ rw (e) (ground arith)
    ],
    λ q. ground (arith, (charge-count_in k j w n reading recent c q).0, h (omega arith)),
  )

  -- A minute holds no more acceptances of a key than its allowance, counted from those before.
  times-accepted_from :
      (allowance w t count : ℕ) (rs : List Request) (s : ApiKeyService)
      → IsOrdered t rs
      → All (MintsWithin k allowance) rs
      → All (Allows k allowance) s.keys
      → count ≤ allowance
      → (t < w + minute → count ≤ count_in w (stamps_of k s.recent))
      → count + times k w (accepted hash rs s) ≤ allowance
  unfolding accepted answer
  times-accepted_from allowance w t count [] s o m ps l h = omega arith
  times-accepted_from allowance w t count (mints label n d ∷ rs) s o m ps l h =
      times-accepted_from allowance w t count rs (mint hash label n d s).1 o m.1
        (answer-Allows allowance (mints label n d) s m.0 ps) l h
  times-accepted_from allowance w t count (revokes j at ∷ rs) s o m ps l h =
      times-accepted_from allowance w t count rs (revoke j at s) o m.1
        (answer-Allows allowance (revokes j at) s tt ps) l h
  times-accepted_from allowance w t count (verifies presented at reading ∷ rs) s o m ps l h =
      let q = verifies presented at reading in
      let s' = (answer hash q s).1 in
      let ps' = answer-Allows allowance q s tt ps in
      elim (verify-Comes hash presented at reading s) [
        | inl (a, e) ↦ rw (a) (
            times-accepted_from allowance w reading count rs s' o.1 m.1 ps' l
              (λ q. subst (λ x. count ≤ count_in w (stamps_of k x)) (sym e) (h (omega arith))))
        | inr (r, part, e, c, a) ↦
            let n = one_if (same r.identifier k && in_minute w reading) in
            let allows = (matched-All (Allows k allowance) part (hash presented) s.keys ps e).0 in
            let (le, h') =
              charge-count r.identifier w r.requests_per_minute allowance count t reading s.recent c
                o.0 allows l h in
            let rest =
              times-accepted_from allowance w reading (count + n) rs s' o.1 m.1 ps' le h' in
            rw (a) (ground (arith, rest))
      ]

  -- Over any sequence of requests to one `ApiKeyService` object in which the clock does not go back,
  -- no minute has more acceptances of a key than the allowance that the rows of the key, at the
  -- start and when they are added, do not go over. It is a law of the object and not of the API,
  -- whose dependency makes a new object for each request.
  pub times-accepted :
      (allowance : ℕ) (w t : Time) (rs : List Request) (s : ApiKeyService)
      → IsOrdered t rs
      → All (MintsWithin k allowance) rs
      → All (Allows k allowance) s.keys
      → times k w (accepted hash rs s) ≤ allowance
  times-accepted allowance w t rs s o m ps =
      let h = times-accepted_from allowance w t 0 rs s o m ps (omega arith) (λ q. omega arith) in
      omega arith
