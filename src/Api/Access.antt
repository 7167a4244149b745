-- ===== src/Api/Access.antt =====
-- `require_api_key`: who a request is let in as.
use yt_scrapper.Base.{
  ◌≤◌, String, Bool, true, false, not, ◌&&◌, Option, none, some, List, [], ◌∷◌, All, Time,
  if◌then◌else◌, ◌≡◌, refl, inl, inr, Bool-cases, ◌⊎◌,
}
use yt_scrapper.Errors.{Result, ok, err, rate_limited}
use yt_scrapper.Keys.{
  ApiKey, ApiKeyService, VerifiedKey, Recent, charge, stamps_of, matched, verified, with_use,
  verify, not_recognised,
}
use yt_scrapper.Keys.Secrets.{charge-first}
use yt_scrapper.Keys.Rows.{matched-All, verify-cases, verify-All}
use yt_scrapper.Texts.{is_empty}

-- `not presented`: a header that is missing, or empty.
abbrev is_missing : Option String → Bool
is_missing none = true
is_missing (some s) = is_empty s

-- The key that is let in, and the rows that are kept; what the service charged goes with it.
abbrev with_key : Result VerifiedKey × ApiKeyService → Result (Option VerifiedKey) × List ApiKey
with_key (ok v, s) = (ok (some v), s.keys)
with_key (err c message, s) = (err c message, s.keys)

abbrev refused : Result (Option VerifiedKey)
refused = elim not_recognised [ ok v ↦ ok (some v) | err c message ↦ err c message ]

-- `ApiKeyService(database)`: each request has a service of its own, which has charged nothing yet.
abbrev new_service : List ApiKey → ApiKeyService
new_service keys = record { keys = keys; recent = [] }

abbrev presented_key :
    (String → String)
    → Option String
    → Time
    → Time
    → List ApiKey
    → Result (Option VerifiedKey) × List ApiKey
presented_key hash none at reading keys = (refused, keys)
presented_key hash (some p) at reading keys =
    if is_empty p then (refused, keys) else with_key (verify hash p at reading (new_service keys))

unfoldable pub require_api_key :
    (String → String)
    → Bool
    → Option String
    → Time
    → Time
    → List ApiKey
    → Result (Option VerifiedKey) × List ApiKey
unfolding verify
require_api_key hash required presented at reading keys =
    if not required && is_missing presented
    then (ok none, keys)
    else presented_key hash presented at reading keys

with_key-ok :
    (r : Result VerifiedKey × ApiKeyService) {who : Option VerifiedKey} {keys : List ApiKey}
    → with_key r ≡ (ok who, keys)
    → (v : VerifiedKey) × (who ≡ some v) × (r.0 ≡ ok v) × (r.1.keys ≡ keys)
with_key-ok (ok v, s) h = (v, cc, refl, cc)
with_key-ok (err c message, s) h = cc

refused-ok :
    {keys keys' : List ApiKey} {who : Option VerifiedKey}
    → ¬ (Path (Result (Option VerifiedKey) × List ApiKey) (refused, keys) (ok who, keys'))
refused-ok h = cc

-- A request is let in without a key only where none is required and none is presented; any other is
-- let in as the key that its secret is verified as, and its use is kept in the row.
require_api_key-ok :
    (hash : String → String) (required : Bool) (presented : Option String) (at reading : Time)
    (keys : List ApiKey) {who : Option VerifiedKey} {keys' : List ApiKey}
    → require_api_key hash required presented at reading keys ≡ (ok who, keys')
    → ((who ≡ none) × (required ≡ false) × (is_missing presented ≡ true) × (keys' ≡ keys))
      ⊎ ((p : String) × (v : VerifiedKey) × (presented ≡ some p)
          × (who ≡ some v)
          × ((verify hash p at reading (new_service keys)).0 ≡ ok v)
          × ((verify hash p at reading (new_service keys)).1.keys ≡ keys'))
unfolding require_api_key
require_api_key-ok hash false none at reading keys h = inl (cc, refl, refl, cc)
require_api_key-ok hash true none at reading keys h = cc
require_api_key-ok hash true (some p) at reading keys {who} {keys'} h =
    elim (Bool-cases (is_empty p)) [
      | inl e ↦ absurd (refused-ok (rw e at h))
      | inr e ↦
          let q : with_key (verify hash p at reading (new_service keys)) ≡ (ok who, keys') =
            rw e at h in
          let (v, w, q', u) = with_key-ok (verify hash p at reading (new_service keys)) q in
          inr (p, v, refl, w, q', u)
    ]
require_api_key-ok hash false (some p) at reading keys {who} {keys'} h =
    elim (Bool-cases (is_empty p)) [
      | inl e ↦
          let q : Path (Result (Option VerifiedKey) × List ApiKey) (ok none, keys) (ok who, keys') =
            rw e at h in
          inl (cc, refl, e, cc)
      | inr e ↦
          let q : with_key (verify hash p at reading (new_service keys)) ≡ (ok who, keys') =
            rw e at h in
          let (v, w, q', u) = with_key-ok (verify hash p at reading (new_service keys)) q in
          inr (p, v, refl, w, q', u)
    ]

-- A request: what it presents, and what the two clocks give.
abbrev pub Presented : Type 0
Presented = Option String × Time × Time

-- The answers to a sequence of requests, one after another.
unfoldable pub answers :
    (String → String) → Bool → List Presented → List ApiKey → List (Result (Option VerifiedKey))
answers hash required [] keys = []
answers hash required ((presented, at, reading) ∷ rs) keys =
    let (a, keys') = require_api_key hash required presented at reading keys in
    a ∷ answers hash required rs keys'

-- An answer 429.
abbrev pub is_limited : Result (Option VerifiedKey) → Bool
is_limited (err rate_limited message) = true
is_limited _ = false

abbrev pub AllowsOne : ApiKey → Type 0
AllowsOne r = 1 ≤ r.requests_per_minute

-- What is neither limited nor a row that allows nothing.
abbrev IsAnswer : Result (Option VerifiedKey) × List ApiKey → Type 0
IsAnswer (a, keys) = (is_limited a ≡ false) × All AllowsOne keys

verify-IsAnswer :
    (hash : String → String) (p : String) (at reading : Time) (keys : List ApiKey)
    → All AllowsOne keys
    → IsAnswer (with_key (verify hash p at reading (new_service keys)))
unfolding stamps_of
verify-IsAnswer hash p at reading keys h =
    let rows = verify-All hash p at reading (new_service keys) AllowsOne (λ r q. q) h in
    verify-cases hash p at reading (new_service keys)
      (λ a. All AllowsOne a.1.keys → IsAnswer (with_key a)) (λ q. (refl, q))
      (λ r part c m e. charged r part c m e) rows
  where
    charged :
        (r : ApiKey) (part : String) (c : Option Recent)
        → matched part (hash p) keys ≡ some r
        → charge r.identifier r.requests_per_minute reading [] ≡ c
        → All AllowsOne (verified r c (with_use r.identifier at (new_service keys))).1.keys
        → IsAnswer (with_key (verified r c (with_use r.identifier at (new_service keys))))
    charged r part (some recent) m e q = (refl, q)
    charged r part none m e q =
        let one = (matched-All AllowsOne part (hash p) keys h m).0 in
        let charged_once = charge-first r.identifier r.requests_per_minute reading [] refl one in cc

require_api_key-IsAnswer :
    (hash : String → String) (required : Bool) (presented : Option String) (at reading : Time)
    (keys : List ApiKey)
    → All AllowsOne keys
    → IsAnswer (require_api_key hash required presented at reading keys)
unfolding require_api_key
require_api_key-IsAnswer hash true none at reading keys h = (refl, h)
require_api_key-IsAnswer hash false none at reading keys h = (refl, h)
require_api_key-IsAnswer hash true (some p) at reading keys h = elim (Bool-cases (is_empty p)) [
  | inl e ↦ rw e (refl, h)
  | inr e ↦ rw e (verify-IsAnswer hash p at reading keys h)
]
require_api_key-IsAnswer hash false (some p) at reading keys h = elim (Bool-cases (is_empty p)) [
  | inl e ↦ rw e (refl, h)
  | inr e ↦ rw e (verify-IsAnswer hash p at reading keys h)
]

-- Each request to the API has a service of its own, so its allowance holds nobody back: where each
-- row of a key allows at least one request a minute, no request of a sequence is answered 429,
-- however many there are and however close they follow each other.
pub answers-is_limited :
    (hash : String → String) (required : Bool) (rs : List Presented) (keys : List ApiKey)
    → All AllowsOne keys
    → All (λ a. is_limited a ≡ false) (answers hash required rs keys)
unfolding answers
answers-is_limited hash required [] keys h = tt
answers-is_limited hash required ((presented, at, reading) ∷ rs) keys h =
    let q = require_api_key-IsAnswer hash required presented at reading keys h in
    (q.0, answers-is_limited hash required rs _ q.1)
