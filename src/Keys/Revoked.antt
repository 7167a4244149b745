-- ===== src/Keys/Revoked.antt =====
-- A key that is revoked stays so.
use yt_scrapper.Base.{
  String, Bool, true, false, some, List, [], ◌∷◌, Time, All, same, any, ◌≡◌, refl, inl, inr,
  Bool-cases,
}
use yt_scrapper.Keys.Rows.{matched-All, verify-Comes, Adds, answer-All}
use yt_scrapper.Keys.{
  ApiKey, ApiKeyService, is_revoked, modify_key, minted, mint, revoke, Request, mints, revokes,
  verifies, answer, accepted,
}

-- The rows of a key are revoked.
abbrev IsDead : String → ApiKey → Type 0
IsDead k r = same r.identifier k ≡ true → is_revoked r ≡ true

-- A new key has an identifier of its own.
abbrev MintsOthers : String → Request → Type 0
MintsOthers k (mints label n d) = same d.identifier k ≡ false
MintsOthers k _ = Unit {0}

-- Whether a key was accepted.
abbrev pub is_among : String → List (String × Time) → Bool
is_among k = any (λ a. same a.0 k)

revoke-IsDead :
    (k : String) (at : Time) (keys : List ApiKey)
    → All (IsDead k) (modify_key k (λ r. record r { revoked_at = some at }) keys)
unfolding modify_key
revoke-IsDead k at [] = tt
revoke-IsDead k at (r ∷ keys) = (
  elim (Bool-cases (same r.identifier k)) [ inl e ↦ rw (e) (λ h. refl) | inr e ↦ rw (e) (λ h. cc) ],
  revoke-IsDead k at keys,
)

module _ (hash : String → String) (k : String) where
  MintsOthers-Adds : (q : Request) → MintsOthers k q → Adds hash (IsDead k) q
  unfolding minted
  MintsOthers-Adds (mints label n d) m = λ h. cc
  MintsOthers-Adds (revokes j at) m = tt
  MintsOthers-Adds (verifies presented at reading) m = tt

  answer-IsDead :
      (q : Request) (s : ApiKeyService)
      → MintsOthers k q
      → All (IsDead k) s.keys
      → All (IsDead k) (answer hash q s).1.keys
  answer-IsDead q s m ps =
      answer-All hash (IsDead k) (λ r at p. p) (λ r at p h. refl) q s (MintsOthers-Adds q m) ps

  accepted-IsDead :
      (rs : List Request) (s : ApiKeyService)
      → All (MintsOthers k) rs
      → All (IsDead k) s.keys
      → is_among k (accepted hash rs s) ≡ false
  unfolding accepted answer
  accepted-IsDead [] s m ps = refl
  accepted-IsDead (mints label n d ∷ rs) s m ps =
      accepted-IsDead rs (mint hash label n d s).1 m.1 (answer-IsDead (mints label n d) s m.0 ps)
  accepted-IsDead (revokes j at ∷ rs) s m ps =
      accepted-IsDead rs (revoke j at s) m.1 (answer-IsDead (revokes j at) s tt ps)
  accepted-IsDead (verifies presented at reading ∷ rs) s m ps =
      let q = verifies presented at reading in
      let rest = accepted-IsDead rs (answer hash q s).1 m.1 (answer-IsDead q s tt ps) in
      elim (verify-Comes hash presented at reading s) [
        | inl (a, e) ↦ rw (a) rest
        | inr (r, part, e, c, a) ↦
            let (dead, live) = matched-All (IsDead k) part (hash presented) s.keys ps e in
            rw (a) (elim (Bool-cases (same r.identifier k)) [
              | inl e ↦ absurd (cc (dead e, live))
              | inr e ↦ rw (e) rest
            ])
      ]

  -- Whatever is asked of the service after a key is revoked, no request is accepted as that key,
  -- as long as no new key is given its identifier.
  pub accepted-revoke :
      (at : Time) (rs : List Request) (s : ApiKeyService)
      → All (MintsOthers k) rs
      → is_among k (accepted hash rs (revoke k at s)) ≡ false
  unfolding revoke
  accepted-revoke at rs s m = accepted-IsDead rs (revoke k at s) m (revoke-IsDead k at s.keys)
