-- ===== src/Keys/Secrets.antt =====
-- The secret of a new key, and the key that it opens.
use Prim.Native.Char.{code}
use Prim.Native.String.{◌++◌ as ◌then◌}
use Prim.Native.String.append.{nil, cons}
use text.Mathlib.TextPositions.{eq_refl}
use yt_scrapper.Base.{
  ℕ, ◌<◌, String, Bool, false, ◌||◌, ◌==◌, none, some, List, [], ◌∷◌, ◌++◌, Time, arith, ◌≡◌, refl,
  ◌∙◌,
}
use yt_scrapper.Errors.{ok}
use yt_scrapper.Keys.{
  ApiKey, ApiKeyService, Drawn, split, secret_of, prefix, matched, next, Recent, stamps_of,
  put_stamps, charge, minted, mint, verify,
}

-- Whether a text has an underscore, which no hexadecimal digit is.
abbrev has_separator : String → Bool
has_separator String.[] = false
has_separator (String.◌∷◌ c s) = code c == b'_' || has_separator s

split-word : (w : String) → has_separator w ≡ false → split w ≡ w ∷ []
unfolding split
split-word String.[] h = refl
split-word (String.◌∷◌ c w) h = ground (arith, split-word w)

split-then : (w t : String) → has_separator w ≡ false → split (w then ("_" then t)) ≡ w ∷ split t
unfolding split
split-then String.[] t h =
    (λ i. split (nil ("_" then t) i))
    ∙ (λ i. split (cons "_" "" t i))
    ∙ (λ i. split (String.◌∷◌ "_" (nil t i)))
split-then (String.◌∷◌ c w) t h =
    (λ i. split (cons c w ("_" then t) i)) ∙ ground (arith, split-then w t)

split-secret_of :
    (d : Drawn)
    → has_separator d.key_prefix ≡ false
    → has_separator d.token ≡ false
    → split (secret_of d) ≡ prefix ∷ d.key_prefix ∷ d.token ∷ []
unfolding secret_of
split-secret_of d h h' =
    split-then prefix _ refl ∙ cc (split-then d.key_prefix d.token h, split-word d.token h')

matched-append :
    (part digest : String) (keys : List ApiKey) (k : ApiKey)
    → matched part digest keys ≡ none
    → matched part digest (keys ++ k ∷ []) ≡ matched part digest (k ∷ [])
unfolding matched next
matched-append part digest [] k h = refl
matched-append part digest (r ∷ keys) k h = ground (arith, matched-append part digest keys k)

pub charge-first :
    (k : String) (allowance : ℕ) (reading : Time) (recent : Recent)
    → stamps_of k recent ≡ []
    → 0 < allowance
    → charge k allowance reading recent ≡ some (put_stamps k (reading ∷ []) recent)
unfolding charge
charge-first k allowance reading recent e l = rw (e) (ground arith)

module _ (hash : String → String) where
  matched-minted :
      (label : String) (allowance : ℕ) (d : Drawn)
      → let k = minted hash label allowance d in
        matched d.key_prefix (hash (secret_of d)) (k ∷ []) ≡ some k
  unfolding matched next minted
  matched-minted label allowance d = simp (eq_refl)

  -- The secret of a new key is accepted as that key, when the secret is drawn from texts without an
  -- underscore, no key that is not revoked has its prefix and its hash, the key has not been
  -- charged yet, and its allowance is above 0.
  pub mint-verify :
      (label : String) (allowance : ℕ) (d : Drawn) (at reading : Time) (s : ApiKeyService)
      → has_separator d.key_prefix ≡ false
      → has_separator d.token ≡ false
      → matched d.key_prefix (hash (secret_of d)) s.keys ≡ none
      → stamps_of d.identifier s.recent ≡ []
      → 0 < allowance
      → let (secret, s') = mint hash label allowance d s in
        (verify hash secret at reading s').0
        ≡ ok (record { identifier = d.identifier; label = label })
  unfolding mint verify
  mint-verify label allowance d at reading s h h' n e l = rw (
    split-secret_of d h h',
    matched-append d.key_prefix (hash (secret_of d)) s.keys (minted hash label allowance d) n,
    matched-minted label allowance d,
    charge-first d.identifier allowance reading s.recent e l,
  )
