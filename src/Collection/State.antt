-- ===== src/Collection/State.antt =====
-- What the service is over: the index, the payload files and what was asked of the network, and the
-- functions that the program calls outside. An action gives a value, or raises.
use yt_scrapper.Base.{ℕ, String, Bool, Option, List, Time}
use yt_scrapper.Json.{Json, Members}
use yt_scrapper.Errors.{ErrorClass, Message, Result, ok, err}
use yt_scrapper.Registry.{TargetType}
use yt_scrapper.Artifacts.{Artifact}
use yt_scrapper.Payloads.{PayloadFile, StoredPayload}

-- What a fingerprint is taken of: the canonical text has its parameters sorted by their names.
pub record Question : Type 0 where
  pub kind : String
  pub target : String
  pub schema_version : String
  pub parameters : List (String × String)

-- A call that returns, raises a domain error, or raises another exception.
pub data Attempt {ℓ} (A : Type ℓ) : Type ℓ where
  returned : A → Attempt A
  raised : ErrorClass → Message → Attempt A
  crashed : Attempt A

-- What is outside: the normalisers of targets, the hashes, the models of payloads (`dump` and
-- `parse`, by the kind of their source), the extraction for each request in turn, the clock and the
-- identifiers for each time they are asked, and the texts of messages.
pub record Outside : Type 0 where
  pub normalize : TargetType → String → Result String
  pub hash : Question → String
  pub digest_of : String → String
  pub dump : Json → String
  pub parse : String → String → Option Json
  pub fetch : ℕ → String → String → Attempt Json
  pub clock : ℕ → Time
  pub new_identifier : ℕ → String
  pub str : Message → String

pub record Library : Type 0 where
  pub rows : List Artifact
  pub files : List PayloadFile
  pub readings : ℕ
  pub requests : List (String × String)

pub record Collected : Type 0 where
  pub kind : String
  pub target : String
  pub payload : StoredPayload
  pub result : Option Json
  pub from_cache : Bool

pub record Degradation : Type 0 where
  pub source : String
  pub code : ErrorClass
  pub detail : Message

-- What a bundle has so far.
pub record Gathered : Type 0 where
  pub parts : Members
  pub degradations : List Degradation

-- An action on the library.
abbrev pub Do {ℓ} : Type ℓ → Type ℓ
Do A = Library → Attempt A × Library

abbrev pub pure {ℓ} : {A : Type ℓ} → A → Do A
pure a w = (returned a, w)

abbrev pub next {ℓ κ} :
    {A : Type ℓ} {B : Type κ} → Attempt A × Library → (A → Do B) → Attempt B × Library
next (returned a, w) f = f a w
next (raised c m, w) f = (raised c m, w)
next (crashed, w) f = (crashed, w)

infixl 5 ◌>>=◌
abbrev pub ◌>>=◌ {ℓ κ} : {A : Type ℓ} {B : Type κ} → Do A → (A → Do B) → Do B
(m >>= f) w = next (m w) f

abbrev pub attempt_of {ℓ} : {A : Type ℓ} → Result A → Attempt A
attempt_of (ok a) = returned a
attempt_of (err c m) = raised c m

abbrev pub lift {ℓ} : {A : Type ℓ} → Result A → Do A
lift r w = (attempt_of r, w)
