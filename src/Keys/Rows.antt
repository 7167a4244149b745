-- ===== src/Keys/Rows.antt =====
-- What comes of a request, and the properties of rows that every request keeps.
use yt_scrapper.Base.{
  String, false, not, ◌&&◌, Option, none, some, List, [], ◌∷◌, Time, All, same, arith, ◌≡◌, refl,
  subst, inl, inr, ◌⊎◌, Option-cases, Bool-cases,
}
use yt_scrapper.Errors.{Result}
use yt_scrapper.Keys.{
  ApiKey, ApiKeyService, VerifiedKey, Recent, is_revoked, part_of, split, matched, next, modify_key,
  charge, minted, verify, verified, with_use, not_recognised, accepted_at, Request, mints, revokes,
  verifies, answer,
}
use yt_scrapper.Base.{All-append}

pub matched-All :
    (P : ApiKey → Type 0) (part digest : String) (keys : List ApiKey) {r : ApiKey}
    → All P keys
    → matched part digest keys ≡ some r
    → P r × (is_revoked r ≡ false)
unfolding matched next
matched-All P part digest [] ps h = cc
matched-All P part digest (k ∷ keys) {r} ps h =
    elim (Bool-cases (same k.key_prefix part && (same k.key_hash digest && not (is_revoked k)))) [
      | inl e ↦
          let e' : k ≡ r = ground arith in
          (subst P e' ps.0, subst (λ r. is_revoked r ≡ false) e' (ground arith))
      | inr e ↦ matched-All P part digest keys ps.1 (ground arith)
    ]

All-modify_key :
    (P : ApiKey → Type 0) (k : String) (f : ApiKey → ApiKey) (keys : List ApiKey)
    → ((r : ApiKey) → P r → P (f r))
    → All P keys
    → All P (modify_key k f keys)
unfolding modify_key
All-modify_key P k f [] h ps = tt
All-modify_key P k f (r ∷ keys) h ps = (
  elim (Bool-cases (same r.identifier k)) [ inl e ↦ rw (e) (h r ps.0) | inr e ↦ rw (e) (ps.0) ],
  All-modify_key P k f keys h ps.1,
)

module _ (hash : String → String) (presented : String) (at reading : Time) (s : ApiKeyService) where
  -- The three things that come of a key that is presented.
  pub verify-cases :
      (Q : Result VerifiedKey × ApiKeyService → Type 0)
      → Q (not_recognised, s)
      → ((r : ApiKey) (part : String) (c : Option Recent)
          → matched part (hash presented) s.keys ≡ some r
          → charge r.identifier r.requests_per_minute reading s.recent ≡ c
          → Q (verified r c (with_use r.identifier at s)))
      → Q (verify hash presented at reading s)
  unfolding verify
  verify-cases Q q f = elim (Option-cases (part_of (split presented))) [
    | inl e ↦ rw (e) q
    | inr (part, e) ↦ rw (e) (elim (Option-cases (matched part (hash presented) s.keys)) [
      | inl m ↦ rw (m) q
      | inr (r, m) ↦ rw (m) (f r part _ m refl)
    ])
  ]

  -- Either nothing is accepted and nothing is charged, or a key is both.
  abbrev pub Comes : Result VerifiedKey × ApiKeyService → Type 0
  Comes a =
      ((accepted_at reading a.0 ≡ []) × (a.1.recent ≡ s.recent))
      ⊎ ((r : ApiKey) × (part : String) × (matched part (hash presented) s.keys ≡ some r)
          × (charge r.identifier r.requests_per_minute reading s.recent ≡ some a.1.recent)
          × (accepted_at reading a.0 ≡ (r.identifier, reading) ∷ []))

  pub verify-Comes : Comes (verify hash presented at reading s)
  verify-Comes = verify-cases Comes (inl (refl, refl)) charged
    where
      charged :
          (r : ApiKey) (part : String) (c : Option Recent)
          → matched part (hash presented) s.keys ≡ some r
          → charge r.identifier r.requests_per_minute reading s.recent ≡ c
          → Comes (verified r c (with_use r.identifier at s))
      charged r part none m c = inl (refl, refl)
      charged r part (some recent) m c = inr (r, part, m, c, refl)

  -- A property of rows that a use keeps is kept.
  pub verify-All :
      (P : ApiKey → Type 0)
      → ((r : ApiKey) → P r → P (record r { last_used_at = some at }))
      → All P s.keys
      → All P (verify hash presented at reading s).1.keys
  verify-All P h ps = verify-cases (λ a. All P a.1.keys) ps charged
    where
      charged :
          (r : ApiKey) (part : String) (c : Option Recent)
          → matched part (hash presented) s.keys ≡ some r
          → charge r.identifier r.requests_per_minute reading s.recent ≡ c
          → All P (verified r c (with_use r.identifier at s)).1.keys
      charged r part none m c = All-modify_key P r.identifier _ s.keys h ps
      charged r part (some recent) m c = All-modify_key P r.identifier _ s.keys h ps

-- What a new key adds to the table.
abbrev pub Adds : (String → String) → (ApiKey → Type 0) → Request → Type 0
Adds hash P (mints label n d) = P (minted hash label n d)
Adds hash P _ = Unit {0}

module _ (hash : String → String) (P : ApiKey → Type 0)
    (on_use : (r : ApiKey) (at : Time) → P r → P (record r { last_used_at = some at }))
    (on_revoke : (r : ApiKey) (at : Time) → P r → P (record r { revoked_at = some at })) where
  -- A property of rows that a use and a revocation keep, and that new rows have, is kept.
  pub answer-All :
      (q : Request) (s : ApiKeyService)
      → Adds hash P q
      → All P s.keys
      → All P (answer hash q s).1.keys
  unfolding answer
  answer-All (mints label n d) s p ps = All-append P s.keys _ ps (p, tt)
  answer-All (revokes j at) s p ps = All-modify_key P j _ s.keys (λ r. on_revoke r at) ps
  answer-All (verifies presented at reading) s p ps =
      verify-All hash presented at reading s P (λ r. on_use r at) ps
