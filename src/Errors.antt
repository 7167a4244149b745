-- ===== src/Errors.antt =====
-- src/tubedepth/errors.py: the classes of domain errors, and what an exception is.
use yt_scrapper.Base.{
  ℕ, String, Bool, true, false, Option, none, some, List, [], ◌∷◌, any, ◌==◌, Time, ◌≡◌, refl,
}

-- `TubedepthError` and the classes below it.
pub data ErrorClass : Type 0 where
  tubedepth validation not_found unavailable upstream configuration rate_limited : ErrorClass
  extraction unauthenticated retracted conflict : ErrorClass

abbrev tag : ErrorClass → ℕ
tag tubedepth = 0
tag validation = 1
tag not_found = 2
tag unavailable = 3
tag upstream = 4
tag configuration = 5
tag rate_limited = 6
tag extraction = 7
tag unauthenticated = 8
tag retracted = 9
tag conflict = 10

-- The base classes of a class, itself first, down to `TubedepthError`.
abbrev bases : ErrorClass → List ErrorClass
bases tubedepth = tubedepth ∷ []
bases rate_limited = rate_limited ∷ upstream ∷ tubedepth ∷ []
bases c = c ∷ tubedepth ∷ []

-- What the class body itself says of `retryable`.
abbrev declared_retryable : ErrorClass → Option Bool
declared_retryable tubedepth = some false
declared_retryable upstream = some true
declared_retryable rate_limited = some true
declared_retryable _ = none

-- An attribute of a class is the first one declared along its bases.
abbrev first_declared : List ErrorClass → Bool
first_declared [] = false
first_declared (c ∷ cs) = elim (declared_retryable c) [ some b ↦ b | none ↦ first_declared cs ]

abbrev pub retryable : ErrorClass → Bool
retryable c = first_declared (bases c)

-- `type(error).__name__`
abbrev pub name_of : ErrorClass → String
name_of tubedepth = "TubedepthError"
name_of validation = "ValidationError"
name_of not_found = "NotFoundError"
name_of unavailable = "UnavailableError"
name_of upstream = "UpstreamError"
name_of configuration = "ConfigurationError"
name_of rate_limited = "RateLimitedError"
name_of extraction = "ExtractionError"
name_of unauthenticated = "UnauthenticatedError"
name_of retracted = "RetractedError"
name_of conflict = "ConflictError"

-- What a reader asked for: an observation by its kind and its digest, or the result of a job.
pub data Subject : Type 0 where
  observation : String → String → Subject
  result_of : String → Subject

-- The text of an exception: an f-string is a constructor over the values it prints.
pub data Message : Type 0 where
  text : String → Message
  no_such_job already_finished : String → Message
  lease_expired_times : ℕ → Message
  no_source_for already_registered : String → Message
  unexpected_failure : String → String → Message
  over_allowance : ℕ → Message
  not_issued no_offset no_digest aged_out : String → Message
  not_finished : String → String → Message
  no_payload : String → String → Time → Message
  unknown_version : Subject → String → Message
  retracted_version : Subject → String → Message
  batch_too_large : ℕ → Message
  not_valid : String → String → Message
  unknown_directive no_target : ℕ → String → Message
  not_observed : String → List String → List String → Message
  no_track_in : String → Message
  no_fallback_track : List String → Message
  schema_gap : List String → Message
  holds_rows : ℕ → String → Message
  partly_copied not_arrived : String → ℕ → ℕ → Message
  nothing_collected : String → List (String × ErrorClass) → Message

-- Anything that `except` can see: a domain error, or an exception of another class.
pub data Failure : Type 0 where
  domain : ErrorClass → Message → Failure
  foreign : String → Failure

-- `isinstance(error, C)` for a class `C` of this module.
abbrev pub is_instance : ErrorClass → Failure → Bool
is_instance c (domain d _) = any (λ b. tag b == tag c) (bases d)
is_instance c (foreign _) = false

-- A call that may raise a domain error.
pub data Result {ℓ} (A : Type ℓ) : Type ℓ where
  ok : A → Result A
  err : ErrorClass → Message → Result A

abbrev pub and_then {ℓ κ} : {A : Type ℓ} {B : Type κ} → Result A → (A → Result B) → Result B
and_then (ok a) f = f a
and_then (err c m) f = err c m

pub and_then-ok {ℓ κ} :
    {A : Type ℓ} {B : Type κ} (r : Result A) (f : A → Result B) {b : B}
    → and_then r f ≡ ok b
    → (a : A) × (r ≡ ok a) × (f a ≡ ok b)
and_then-ok (ok a) f h = (a, refl, h)
and_then-ok (err c m) f h = cc
