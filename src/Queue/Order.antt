-- ===== src/Queue/Order.antt =====
-- Which row `claim` picks: one that is claimable, and no claimable row comes before it.
use yt_scrapper.Base.{
  String, Bool, true, false, not, ◌||◌, Option, none, some, List, [], ◌∷◌, ◌≡◌, refl, arith, eq_iff,
  All, All-mono, ◌⊎◌, ◌<◌, ◌≤◌, inl, inr, Bool-cases, Option-cases, Time,
}
use yt_scrapper.Models.{Job, Jobs, get, queued}
use yt_scrapper.Models.Rows.{Distinct, same_self}
use yt_scrapper.Queue.{is_admitted, is_claimable, comes_before, earlier_of, candidate}

comes_before_refl : (a : Job) → comes_before a a ≡ true
unfolding comes_before
comes_before_refl a = ground arith

comes_before_trans :
    (a b c : Job) → comes_before a b ≡ true → comes_before b c ≡ true → comes_before a c ≡ true
unfolding comes_before
comes_before_trans a b c p q = ground arith

comes_before_total : (a b : Job) → comes_before a b ≡ false → comes_before b a ≡ true
unfolding comes_before
comes_before_total a b p = ground arith

-- The candidate is a claimable row that the table holds.
module _ (locked : String → Bool) (now : Time) (kinds : Option (List String)) where
  abbrev claimable : Job → Bool
  claimable = is_claimable locked now kinds

  pub candidate-claimable :
      (c : Job) (js : Jobs) → candidate locked now kinds js ≡ some c → claimable c ≡ true
  unfolding candidate
  candidate-claimable c [] e = cc
  candidate-claimable c (j ∷ js) e = elim (Option-cases (candidate locked now kinds js)) [
    | inl q ↦ ground arith
    | inr (i, q) ↦ ground (arith, candidate-claimable i js q)
  ]

  pub candidate-get :
      (c : Job) (js : Jobs)
      → Distinct js
      → candidate locked now kinds js ≡ some c
      → get c.identifier js ≡ some c
  unfolding candidate get
  candidate-get c [] d e = cc
  candidate-get c (j ∷ js) d e = elim (Option-cases (candidate locked now kinds js)) [
    | inl q ↦ ground (arith, same_self c.identifier)
    | inr (i, q) ↦
        ground (
          arith,
          same_self j.identifier,
          eq_iff j.identifier i.identifier,
          candidate-get i js d.1 q,
        )
  ]

  pub candidate-none :
      (js : Jobs) → candidate locked now kinds js ≡ none → All (λ j. claimable j ≡ false) js
  unfolding candidate
  candidate-none [] e = tt
  candidate-none (j ∷ js) e = ground (arith, candidate-none js)

  pub candidate-of_none :
      (js : Jobs) → All (λ j. claimable j ≡ false) js → candidate locked now kinds js ≡ none
  unfolding candidate
  candidate-of_none [] h = refl
  candidate-of_none (j ∷ js) h = ground (arith, candidate-of_none js h.1)

  -- The earlier of two comes before both.
  earlier_of-before_left : (j i : Job) → comes_before (earlier_of j (some i)) j ≡ true
  unfolding earlier_of
  earlier_of-before_left j i = elim (Bool-cases (comes_before j i)) [
    | inl p ↦ rw p (comes_before_refl j)
    | inr p ↦ rw p (comes_before_total j i p)
  ]

  earlier_of-before_right : (j i : Job) → comes_before (earlier_of j (some i)) i ≡ true
  unfolding earlier_of
  earlier_of-before_right j i = elim (Bool-cases (comes_before j i)) [
    | inl p ↦ rw p p
    | inr p ↦ rw p (comes_before_refl i)
  ]

  -- No claimable row comes before the candidate.
  abbrev pub IsLeast : Job → Jobs → Type 0
  IsLeast c js = All (λ j. (not (claimable j) || comes_before c j) ≡ true) js

  first_of_comes_before :
      (c j : Job) → comes_before c j ≡ true → (not (claimable j) || comes_before c j) ≡ true
  first_of_comes_before c j h = ground arith

  first_of_unclaimable :
      (c j : Job) → claimable j ≡ false → (not (claimable j) || comes_before c j) ≡ true
  first_of_unclaimable c j h = rw h

  first_trans :
      (c i j : Job)
      → comes_before c i ≡ true
      → (not (claimable j) || comes_before i j) ≡ true
      → (not (claimable j) || comes_before c j) ≡ true
  first_trans c i j p q = ground (arith, comes_before_trans c i j)

  candidate-IsLeast_cons :
      (c j : Job) (js : Jobs) (o : Option Job)
      → claimable j ≡ true
      → earlier_of j o ≡ c
      → candidate locked now kinds js ≡ o
      → ((i : Job) → candidate locked now kinds js ≡ some i → IsLeast i js)
      → IsLeast c (j ∷ js)
  candidate-IsLeast_cons c j js none p e q ih = (
    first_of_comes_before c j (rw (← e) (unfold earlier_of in comes_before_refl j)),
    All-mono js (first_of_unclaimable c) (candidate-none js q),
  )
  candidate-IsLeast_cons c j js (some i) p e q ih = (
    first_of_comes_before c j (rw (← e) (earlier_of-before_left j i)),
    All-mono js (λ x f. first_trans c i x (rw (← e) (earlier_of-before_right j i)) f) (ih i q),
  )

  pub candidate-IsLeast :
      (c : Job) (js : Jobs) → candidate locked now kinds js ≡ some c → IsLeast c js
  unfolding candidate
  candidate-IsLeast c [] e = tt
  candidate-IsLeast c (j ∷ js) e = elim (Bool-cases (claimable j)) [
    | inl p ↦
        candidate-IsLeast_cons c j js (candidate locked now kinds js) p (ground arith) refl
          (λ i. candidate-IsLeast i js)
    | inr p ↦ (first_of_unclaimable c j p, candidate-IsLeast c js (ground arith))
  ]

-- The claimable rows, and the order of the queue, by the fields of the rows.
module _ (locked : String → Bool) (now : Time) (kinds : Option (List String)) where
  pub record IsClaimable (j : Job) : Type 0 where
    pub is_waiting : j.state ≡ queued
    pub is_due : j.scheduled_at ≤ now
    pub is_of_kind : is_admitted kinds j.kind ≡ true
    pub is_free : locked j.identifier ≡ false

  pub is_claimable-IsClaimable : (j : Job) → is_claimable locked now kinds j ≡ true → IsClaimable j
  unfolding is_claimable
  is_claimable-IsClaimable j h = record {
    is_waiting = ground arith;
    is_due = ground arith;
    is_of_kind = ground arith;
    is_free = ground arith;
  }

  IsClaimable-is_claimable : (j : Job) → IsClaimable j → is_claimable locked now kinds j ≡ true
  unfolding is_claimable
  IsClaimable-is_claimable j h = ground (arith, h.is_waiting, h.is_due, h.is_of_kind, h.is_free)

  pub unclaimable : (j : Job) → is_claimable locked now kinds j ≡ false → ¬ IsClaimable j
  unclaimable j h b = let p = IsClaimable-is_claimable j b in absurd (cc p)

  pub not_claimable : (j : Job) → ¬ IsClaimable j → is_claimable locked now kinds j ≡ false
  not_claimable j n = elim (Bool-cases (is_claimable locked now kinds j)) [
    | inl p ↦ absurd (n (is_claimable-IsClaimable j p))
    | inr p ↦ p
  ]

  -- Due earlier, or due at the same time and not created later.
  abbrev IsNoLater : Job → Job → Type 0
  IsNoLater c j =
      (c.scheduled_at < j.scheduled_at)
      ⊎ ((c.scheduled_at ≡ j.scheduled_at) × (c.created_at ≤ j.created_at))

  comes_before-IsNoLater : (c j : Job) → comes_before c j ≡ true → IsNoLater c j
  unfolding comes_before
  comes_before-IsNoLater c j h = ground arith

  abbrev pub IsFirst : Job → Jobs → Type 0
  IsFirst c js = All (λ j. IsClaimable j → IsNoLater c j) js

  pub IsLeast-IsFirst : (c : Job) (js : Jobs) → IsLeast locked now kinds c js → IsFirst c js
  IsLeast-IsFirst c js =
      All-mono js
        (λ j h b. let p = IsClaimable-is_claimable j b in comes_before-IsNoLater c j (ground arith))
