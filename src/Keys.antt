-- ===== src/Keys.antt =====
-- src/tubedepth/services/keys.py: API keys, which are stored as hashes, and the allowance of each.
-- The hash is an argument, and so is what `secrets` and the two clocks give.
pub mod Rows
pub mod Charges
pub mod Revoked
pub mod Secrets
use Prim.Native.Char.{code}
use Prim.Native.String.{◌++◌ as ◌then◌}
use yt_scrapper.Base.{
  ℕ, ◌+◌, String, Bool, not, ◌&&◌, ◌==◌, Option, none, some, is_some, List, [], ◌∷◌, ◌++◌, map,
  Time, ltb, leb, length, same, select, if◌then◌else◌,
}
use yt_scrapper.Errors.{Result, ok, err, unauthenticated, rate_limited, text, over_allowance}
use yt_scrapper.Texts.{push}

-- The row of models.py. An allowance below 0 refuses what an allowance of 0 refuses.
pub record ApiKey : Type 0 where
  pub identifier : String
  pub label : String
  pub key_prefix : String
  pub key_hash : String
  pub requests_per_minute : ℕ
  pub created_at : Time
  pub last_used_at : Option Time
  pub revoked_at : Option Time

pub record VerifiedKey : Type 0 where
  pub identifier : String
  pub label : String

-- The readings of the clock at which a key was charged, by the identifier of the key.
abbrev pub Recent : Type 0
Recent = List (String × List Time)

pub record ApiKeyService : Type 0 where
  pub keys : List ApiKey
  pub recent : Recent

abbrev pub prefix : String
prefix = "ytd"

-- A minute, on the clock of the allowance.
abbrev pub minute : Time
minute = 60000000

-- What `secrets` and the defaults of the row give to a new key.
pub record Drawn : Type 0 where
  pub identifier : String
  pub key_prefix : String
  pub token : String
  pub created_at : Time

-- `presented.split("_")`
unfoldable pub split : String → List String
split String.[] = "" ∷ []
split (String.◌∷◌ c s) = let rest = split s in if code c == b'_' then "" ∷ rest else push c rest

-- `f"{PREFIX}_{prefix}_{token}"`
unfoldable pub secret_of : Drawn → String
secret_of d = prefix then ("_" then (d.key_prefix then ("_" then d.token)))

-- The second of three parts, if the first is the prefix of all keys.
abbrev pub part_of : List String → Option String
part_of (a ∷ b ∷ c ∷ []) = if same a prefix then some b else none
part_of _ = none

abbrev pub is_revoked : ApiKey → Bool
is_revoked k = is_some k.revoked_at

unfoldable pub next {ℓ} : {A : Type ℓ} → (A → Bool) → List A → Option A
next p [] = none
next p (x ∷ xs) = if p x then some x else next p xs

-- The row among the candidates that a digest matches and that is not revoked.
unfoldable pub matched : String → String → List ApiKey → Option ApiKey
unfolding next
matched part digest keys =
    next (λ k. same k.key_hash digest && not (is_revoked k))
      (select (λ k. same k.key_prefix part) keys)

-- `UPDATE api_keys` of one row, by its identifier.
unfoldable pub modify_key : String → (ApiKey → ApiKey) → List ApiKey → List ApiKey
modify_key k f keys = map (λ r. if same r.identifier k then f r else r) keys

-- `self._recent.get(identifier, [])`
unfoldable pub stamps_of : String → Recent → List Time
stamps_of k [] = []
stamps_of k ((j, stamps) ∷ recent) = if same j k then stamps else stamps_of k recent

-- `self._recent[identifier] = stamps`
unfoldable pub put_stamps : String → List Time → Recent → Recent
put_stamps k stamps [] = (k, stamps) ∷ []
put_stamps k stamps ((j, old) ∷ recent) =
    if same j k then (j, stamps) ∷ recent else (j, old) ∷ put_stamps k stamps recent

abbrev pub is_recent : Time → Time → Bool
is_recent now stamp = ltb now (stamp + minute)

-- `_charge`; `none` is the `RateLimitedError`, which leaves the stamps as they were.
unfoldable pub charge : String → ℕ → Time → Recent → Option Recent
unfolding stamps_of put_stamps
charge identifier allowance now recent =
    let stamps = select (is_recent now) (stamps_of identifier recent) in
    if leb allowance (length stamps)
    then none
    else some (put_stamps identifier (stamps ++ now ∷ []) recent)

abbrev pub not_recognised : Result VerifiedKey
not_recognised = err unauthenticated (text "api key missing or not recognised")

abbrev pub verified : ApiKey → Option Recent → ApiKeyService → Result VerifiedKey × ApiKeyService
verified k none s = (err rate_limited (over_allowance k.requests_per_minute), s)
verified k (some recent) s =
    (ok (record { identifier = k.identifier; label = k.label }), record s { recent = recent })

abbrev pub with_use : String → Time → ApiKeyService → ApiKeyService
with_use k at s = record s { keys = modify_key k (λ r. record r { last_used_at = some at }) s.keys }

-- The use is recorded, and committed, before the charge is tried.
abbrev used : Time → Time → Option ApiKey → ApiKeyService → Result VerifiedKey × ApiKeyService
used at reading none s = (not_recognised, s)
used at reading (some k) s =
    verified k (charge k.identifier k.requests_per_minute reading s.recent)
      (with_use k.identifier at s)

unfoldable pub revoke : String → Time → ApiKeyService → ApiKeyService
unfolding modify_key
revoke k at s = record s { keys = modify_key k (λ r. record r { revoked_at = some at }) s.keys }

module _ (hash : String → String) where
  -- The row of a new key, which is added to the table; its secret is the other half of the answer.
  unfoldable pub minted : String → ℕ → Drawn → ApiKey
  minted label requests_per_minute d = record {
    identifier = d.identifier;
    label = label;
    key_prefix = d.key_prefix;
    key_hash = hash (secret_of d);
    requests_per_minute = requests_per_minute;
    created_at = d.created_at;
    last_used_at = none;
    revoked_at = none;
  }

  unfoldable pub mint : String → ℕ → Drawn → ApiKeyService → String × ApiKeyService
  unfolding minted
  mint label requests_per_minute d s =
      (secret_of d, record s { keys = s.keys ++ minted label requests_per_minute d ∷ [] })

  abbrev verify_part :
      Option String → String → Time → Time → ApiKeyService → Result VerifiedKey × ApiKeyService
  verify_part none presented at reading s = (not_recognised, s)
  verify_part (some part) presented at reading s =
      used at reading (matched part (hash presented) s.keys) s

  -- `verify`, with the time of the use and the reading of the clock of the allowance.
  unfoldable pub verify : String → Time → Time → ApiKeyService → Result VerifiedKey × ApiKeyService
  unfolding split matched charge modify_key
  verify presented at reading s = verify_part (part_of (split presented)) presented at reading s

-- What clients and operators ask of the service.
pub data Request : Type 0 where
  mints : String → ℕ → Drawn → Request
  revokes : String → Time → Request
  verifies : String → Time → Time → Request

-- The keys that were accepted, with the readings at which they were.
abbrev pub accepted_at : Time → Result VerifiedKey → List (String × Time)
accepted_at reading (ok v) = (v.identifier, reading) ∷ []
accepted_at reading (err c message) = []

abbrev with_accepted :
    Time → Result VerifiedKey × ApiKeyService → List (String × Time) × ApiKeyService
with_accepted reading (result, s) = (accepted_at reading result, s)

module _ (hash : String → String) where
  unfoldable pub answer : Request → ApiKeyService → List (String × Time) × ApiKeyService
  unfolding mint revoke verify
  answer (mints label allowance d) s = ([], (mint hash label allowance d s).1)
  answer (revokes k at) s = ([], revoke k at s)
  answer (verifies presented at reading) s =
      with_accepted reading (verify hash presented at reading s)

  -- What is accepted over a sequence of requests.
  unfoldable pub accepted : List Request → ApiKeyService → List (String × Time)
  unfolding answer
  accepted [] s = []
  accepted (r ∷ rs) s = let a = answer r s in a.0 ++ accepted rs a.1
