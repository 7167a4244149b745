-- ===== src/Queue/Claim.antt =====
-- What `claim` takes, and when it takes nothing.
use yt_scrapper.Base.{
  String, Bool, true, Option, none, some, List, [], ◌∷◌, ◌≡◌, refl, arith, eq_iff, All, All-mono,
  ap, ◌↔◌, inl, inr, Option-cases, Time,
}
use yt_scrapper.Models.{Job, Jobs, get, modify, update_where, is_queued}
use yt_scrapper.Models.Rows.{Distinct, get-modify_self}
use yt_scrapper.Queue.{is_claimable, candidate, taken, is_untaken, claim_candidate, claim}
use yt_scrapper.Queue.Order.{
  candidate-claimable, candidate-get, candidate-none, candidate-of_none, candidate-IsLeast,
  IsClaimable, IsFirst, is_claimable-IsClaimable, IsLeast-IsFirst, unclaimable, not_claimable,
}

-- Where no row has the key, neither the guarded update nor a plain one finds anything.
update_where-absent :
    (f : Job → Job) (k : String) (js : Jobs)
    → get k js ≡ none
    → (update_where (is_untaken k) f js ≡ (0, js)) × (modify k f js ≡ js)
unfolding update_where get modify
update_where-absent f k [] e = (refl, refl)
update_where-absent f k (j ∷ js) e = ground (arith, update_where-absent f k js)

-- The guarded update meets exactly the candidate's row.
update_where-one :
    (f : Job → Job) (k : String) {c : Job} (js : Jobs)
    → Distinct js
    → get k js ≡ some c
    → is_queued c.state ≡ true
    → update_where (is_untaken k) f js ≡ (1, modify k f js)
unfolding update_where get modify
update_where-one f k [] d e q = cc
update_where-one f k {c} (j ∷ js) d e q =
    ground (
      arith,
      eq_iff j.identifier k,
      update_where-one f k {c = c} js d.1,
      update_where-absent f k js,
    )

module _ (worker : String) (lease : Time) (kinds : Option (List String)) (locked : String → Bool)
    (now : Time) where
  abbrev row : Job → Job
  row = taken worker lease now

  -- With a candidate the claim goes through: the guard of the UPDATE does not fire.
  pub claim-candidate :
      (c : Job) (js : Jobs)
      → Distinct js
      → candidate locked now kinds js ≡ some c
      → claim worker lease kinds locked now js ≡ (some (row c), modify c.identifier row js)
  unfolding claim is_claimable
  claim-candidate c js d e =
      rw (e, claim_candidate)
        (ground (
          arith,
          candidate-claimable locked now kinds c js e,
          update_where-one row c.identifier {c = c} js d (candidate-get locked now kinds c js d e),
          get-modify_self c.identifier row {j = c} js (λ j. refl)
              (candidate-get locked now kinds c js d e),
        ))

  -- Without one it returns nothing and changes nothing.
  pub claim-no_candidate :
      (js : Jobs)
      → candidate locked now kinds js ≡ none
      → claim worker lease kinds locked now js ≡ (none, js)
  unfolding claim
  claim-no_candidate js e = rw e

  -- A claim returns nothing exactly when no row is claimable: queued, due, of an admitted kind and
  -- not locked by another transaction.
  pub claim-none :
      (js : Jobs)
      → Distinct js
      → ((claim worker lease kinds locked now js).0 ≡ none)
        ↔ All (λ j. ¬ IsClaimable locked now kinds j) js
  claim-none js d = (
    (λ e. elim (Option-cases (candidate locked now kinds js)) [
      | inl q ↦ All-mono js (unclaimable locked now kinds) (candidate-none locked now kinds js q)
      | inr (c, q) ↦ absurd (ground (arith, e, claim-candidate c js d q))
    ]),
    (λ h.
        ap (λ r. r.0)
          (claim-no_candidate js (
            candidate-of_none locked now kinds js
              (All-mono js (not_claimable locked now kinds) h)))),
  )

  -- A claim that returns a job has taken a claimable row of the table before which no claimable
  -- row comes, by due time and then by creation time; that row is now running under the worker's
  -- name and a lease with one attempt more, and no other row has changed.
  pub claim-some :
      (js : Jobs) {j : Job} {js' : Jobs}
      → Distinct js
      → claim worker lease kinds locked now js ≡ (some j, js')
      → (c : Job) × (get c.identifier js ≡ some c)
        × IsClaimable locked now kinds c
        × IsFirst locked now kinds c js
        × (j ≡ row c)
        × (js' ≡ modify c.identifier row js)
  claim-some js {j} {js'} d e = elim (Option-cases (candidate locked now kinds js)) [
    | inl q ↦ absurd (cc (claim-no_candidate js q))
    | inr (c, q) ↦ (
      c,
      candidate-get locked now kinds c js d q,
      is_claimable-IsClaimable locked now kinds c (candidate-claimable locked now kinds c js q),
      IsLeast-IsFirst locked now kinds c js (candidate-IsLeast locked now kinds c js q),
      ground (arith, claim-candidate c js d q),
      ground (arith, claim-candidate c js d q),
    )
  ]
