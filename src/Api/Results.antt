-- ===== src/Api/Results.antt =====
-- The routes that hand stored bytes out, and those on one job.
use yt_scrapper.Base.{
  ℕ, String, Bool, true, false, ◌&&◌, Option, none, some, List, [], ◌∷◌, Time, leb, same, select,
  contains, length, if◌then◌else◌,
}
use yt_scrapper.Errors.{
  Result, ok, err, not_found, conflict, retracted, and_then, Subject, observation, result_of,
  no_such_job, no_digest, no_payload, not_finished, aged_out, unknown_version, retracted_version,
}
use yt_scrapper.Models.{Job, Jobs}
use yt_scrapper.Models
use yt_scrapper.Artifacts.{Artifact, newer_of}
use yt_scrapper.Payloads.{PayloadFile, read}
use yt_scrapper.Registry.{Source, Registry, get}
use yt_scrapper.Json.{Json, object, Members, end, member}
use yt_scrapper.Collection.State.{Attempt, returned, raised, crashed}
use yt_scrapper.Queue.{cancel}
use yt_scrapper.Api.Listing.{JobView, job_view, value_of}
use yt_scrapper.Texts.{insert}

-- `_current_source`
unfoldable pub current_source : Registry → String → Option Source
unfolding get
current_source registry kind = elim (get kind registry) [ ok s ↦ some s | err c m ↦ none ]

abbrev pub retracted_of : Option Source → List String
retracted_of none = []
retracted_of (some s) = s.retracted_versions

abbrev pub has_retracted : List String → Bool
has_retracted [] = false
has_retracted (v ∷ vs) = true

-- `_refuse_withdrawn_payload`
unfoldable pub refuse_withdrawn_payload :
    Option Source → String → Option String → Subject → Result (Unit {0})
refuse_withdrawn_payload source kind none subject =
    if has_retracted (retracted_of source)
    then err conflict (unknown_version subject kind)
    else ok tt
refuse_withdrawn_payload source kind (some version) subject =
    if contains version (retracted_of source)
    then err retracted (retracted_version subject version)
    else ok tt

-- `ORDER BY fetched_at DESC`: the first row. Of two that tie, the one that the table lists first.
unfoldable pub newest : (Artifact → Bool) → List Artifact → Option Artifact
unfolding newer_of
newest p [] = none
newest p (a ∷ rows) = let rest = newest p rows in if p a then some (newer_of a rest) else rest

-- The last row of that order.
abbrev older_of : Artifact → Option Artifact → Artifact
older_of a none = a
older_of a (some b) = if leb b.fetched_at a.fetched_at then b else a

unfoldable pub oldest : (Artifact → Bool) → List Artifact → Option Artifact
oldest p [] = none
oldest p (a ∷ rows) = let rest = oldest p rows in if p a then some (older_of a rest) else rest

abbrev pub has_digest : String → Artifact → Bool
has_digest digest a = same a.digest digest

abbrev pub has_digest_of : String → String → Artifact → Bool
has_digest_of digest kind a = same a.digest digest && same a.kind kind

abbrev pub version_of : Option Artifact → Option String
version_of none = none
version_of (some a) = a.schema_version

abbrev first_time : Artifact → Option Artifact → Time
first_time a none = a.fetched_at
first_time a (some b) = b.fetched_at

-- `sorted(body) if isinstance(body, dict) else []`
abbrev names : Members → List String
names end = []
names (member n v rest) = insert n (names rest)

unfoldable pub fields_of : Json → List String
unfolding insert
fields_of (object ms) = names ms
fields_of _ = []

pub record ArtifactPayloadView : Type 0 where
  pub digest : String
  pub kind : String
  pub target : String
  pub observations : ℕ
  pub first_fetched_at : Time
  pub fetched_at : Time
  pub schema_version : Option String
  pub current_schema_version : Option String
  pub payload_fields : List String
  pub current_fields : List String
  pub payload : Json

abbrev current_version : Option Source → Option String
current_version none = none
current_version (some s) = some s.schema_version

-- `json.loads`, which is none for its error, and the sorted names of the fields of a source's model.
module _ (loads : String → Option Json) (model_fields : Source → List String) (registry : Registry)
    (files : List PayloadFile) (rows : List Artifact) where
  abbrev current_fields_of : Option Source → List String
  current_fields_of none = []
  current_fields_of (some s) = model_fields s

  abbrev payload_view : String → Artifact → Json → ArtifactPayloadView
  payload_view digest a body = record {
    digest = a.digest;
    kind = a.kind;
    target = a.target;
    observations = length (select (has_digest digest) rows);
    first_fetched_at = first_time a (oldest (has_digest digest) rows);
    fetched_at = a.fetched_at;
    schema_version = a.schema_version;
    current_schema_version = current_version (current_source registry a.kind);
    payload_fields = fields_of body;
    current_fields = current_fields_of (current_source registry a.kind);
    payload = body;
  }

  abbrev pub loaded : String → Artifact → Option Json → Attempt ArtifactPayloadView
  loaded digest a none = crashed
  loaded digest a (some body) = returned (payload_view digest a body)

  abbrev pub read_payload : String → Artifact → Option String → Attempt ArtifactPayloadView
  read_payload digest a none = raised not_found (no_payload a.kind digest a.fetched_at)
  read_payload digest a (some payload) = loaded digest a (loads payload)

  abbrev pub unless_withdrawn :
      Result (Unit {0}) → Attempt ArtifactPayloadView → Attempt ArtifactPayloadView
  unless_withdrawn (ok _) answer = answer
  unless_withdrawn (err c m) answer = raised c m

  abbrev pub read_observed : String → Option Artifact → Attempt ArtifactPayloadView
  read_observed digest none = raised not_found (no_digest digest)
  read_observed digest (some a) =
      unless_withdrawn
        (refuse_withdrawn_payload (current_source registry a.kind) a.kind a.schema_version
          (observation a.kind digest))
        (read_payload digest a (read a.digest files))

  -- `read_artifact`
  unfoldable pub read_artifact : String → Attempt ArtifactPayloadView
  unfolding newest oldest refuse_withdrawn_payload current_source read fields_of
  read_artifact digest = read_observed digest (newest (has_digest digest) rows)

module _ (registry : Registry) (files : List PayloadFile) (rows : List Artifact) where
  abbrev pub attributed : String → Job → String → String → Result String
  attributed k j digest body =
      and_then
        (refuse_withdrawn_payload (current_source registry j.kind) j.kind
          (version_of (newest (has_digest_of digest j.kind) rows)) (result_of k))
        (λ _. ok body)

  abbrev pub read_body : String → Job → String → Option String → Result String
  read_body k j digest none = err not_found (aged_out k)
  read_body k j digest (some body) = attributed k j digest body

  abbrev pub result_at : String → Job → Option String → Result String
  result_at k j none = err conflict (not_finished k (value_of j.state))
  result_at k j (some digest) = read_body k j digest (read digest files)

  abbrev pub result_for : String → Option Job → Result String
  result_for k none = err not_found (no_such_job k)
  result_for k (some j) = result_at k j j.payload_digest

  -- `read_result`
  unfoldable pub read_result : String → Jobs → Result String
  unfolding newest refuse_withdrawn_payload current_source read
  read_result k jobs = result_for k (Models.get k jobs)

abbrev viewed : String → Option Job → Result JobView
viewed k none = err not_found (no_such_job k)
viewed k (some j) = ok (job_view j)

unfoldable read_job : String → Jobs → Result JobView
read_job k jobs = viewed k (Models.get k jobs)

abbrev view_of : Result Job → Result JobView
view_of r = and_then r (λ j. ok (job_view j))

unfoldable cancel_job : String → Time → Jobs → Result JobView × Jobs
unfolding cancel
cancel_job k now jobs = let answer = cancel k now jobs in (view_of answer.0, answer.1)
