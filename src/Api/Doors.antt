-- ===== src/Api/Doors.antt =====
-- What leaves by the two routes that hand stored bytes out.
use text.Mathlib.TextPositions.{eq_refl}
use yt_scrapper.Base.{
  ◌<◌, String, Bool, true, false, Option, none, some, List, [], ◌∷◌, ◌++◌, Time, contains, ◌≡◌,
  refl, arith, All, ◌⊎◌, inl, inr, ◌↔◌, some-inj, ◌>>=◌,
}
use yt_scrapper.Errors.{Result, ok, err, Subject, result_of}
use yt_scrapper.Models.{Job, Jobs}
use yt_scrapper.Models
use yt_scrapper.Json.{Json}
use yt_scrapper.Artifacts.{Artifact, Observation, observed_row, add_observation}
use yt_scrapper.Payloads.{PayloadFile, read, put, IsAddressed, read-write_file}
use yt_scrapper.Registry.{Source, Registry, get}
use yt_scrapper.Collection.State.{Attempt, returned}
use yt_scrapper.Api.Results.{
  current_source, retracted_of, has_retracted, refuse_withdrawn_payload, newest, has_digest,
  has_digest_of, version_of, read_observed, read_artifact, result_for, result_at, read_body,
  read_result, loaded, read_payload, unless_withdrawn, ArtifactPayloadView,
}
use yt_scrapper.Errors.{and_then-ok}

-- That nothing speaks against a version: its kind has withdrawn none, or the version is known and
-- is not among those that were withdrawn.
abbrev pub Stands : Registry → String → Option String → Type 0
Stands registry kind version =
    let vs = retracted_of (current_source registry kind) in
    (vs ≡ []) ⊎ ((v : String) × (version ≡ some v) × (contains v vs ≡ false))

refuse-ok :
    (registry : Registry) (kind : String) (version : Option String) (subject : Subject)
    {u : Unit {0}}
    → refuse_withdrawn_payload (current_source registry kind) kind version subject ≡ ok u
    → Stands registry kind version
unfolding refuse_withdrawn_payload
refuse-ok registry kind none subject h =
    inl (none_retracted (retracted_of (current_source registry kind)) (ground arith))
  where
    none_retracted : (vs : List String) → has_retracted vs ≡ false → vs ≡ []
    none_retracted [] h = refl
    none_retracted (v ∷ vs) h = cc
refuse-ok registry kind (some v) subject h = inr (v, refl, ground arith)

refuse-Stands :
    (registry : Registry) (kind : String) (version : Option String) (subject : Subject)
    → Stands registry kind version
    → refuse_withdrawn_payload (current_source registry kind) kind version subject ≡ ok tt
unfolding refuse_withdrawn_payload
refuse-Stands registry kind none subject (inl h) = rw h refl
refuse-Stands registry kind none subject (inr (v, e, h)) = cc
refuse-Stands registry kind (some w) subject (inl h) = rw h refl
refuse-Stands registry kind (some w) subject (inr (v, e, h)) =
    let q : w ≡ v = some-inj e in rw (q, h) refl

module _ (loads : String → Option Json) (model_fields : Source → List String) (registry : Registry)
    (files : List PayloadFile) (rows : List Artifact) where
  unless_withdrawn-returned :
      (r : Result (Unit {0})) (answer : Attempt ArtifactPayloadView) {view : ArtifactPayloadView}
      → unless_withdrawn loads model_fields registry files rows r answer ≡ returned view
      → (r ≡ ok tt) × (answer ≡ returned view)
  unless_withdrawn-returned (ok tt) answer h = (refl, h)
  unless_withdrawn-returned (err c m) answer h = cc

  -- A payload leaves by its digest only if nothing speaks against the version of the newest
  -- observation that has the digest, which the answer names; it is the payload that the store has.
  pub read_artifact-Stands :
      (digest : String) {view : ArtifactPayloadView}
      → read_artifact loads model_fields registry files rows digest ≡ returned view
      → (a : Artifact) × (newest (has_digest digest) rows ≡ some a)
        × Stands registry a.kind a.schema_version
        × (view.kind ≡ a.kind)
        × (view.schema_version ≡ a.schema_version)
        × ((read a.digest files >>= loads) ≡ some view.payload)
  unfolding read_artifact
  read_artifact-Stands digest {view} h = go (newest (has_digest digest) rows) refl h
    where
      viewed :
          (a : Artifact) (body : Option Json)
          → loaded loads model_fields registry files rows digest a body ≡ returned view
          → (view.kind ≡ a.kind)
            × (view.schema_version ≡ a.schema_version)
            × (body ≡ some view.payload)
      viewed a none e = cc
      viewed a (some body) e = (cc, cc, cc)

      stored :
          (a : Artifact) (payload : Option String)
          → read_payload loads model_fields registry files rows digest a payload ≡ returned view
          → (view.kind ≡ a.kind)
            × (view.schema_version ≡ a.schema_version)
            × ((payload >>= loads) ≡ some view.payload)
      stored a none e = cc
      stored a (some payload) e = viewed a (loads payload) e

      go :
          (o : Option Artifact)
          → newest (has_digest digest) rows ≡ o
          → read_observed loads model_fields registry files rows digest o ≡ returned view
          → (a : Artifact) × (newest (has_digest digest) rows ≡ some a)
            × Stands registry a.kind a.schema_version
            × (view.kind ≡ a.kind)
            × (view.schema_version ≡ a.schema_version)
            × ((read a.digest files >>= loads) ≡ some view.payload)
      go none e q = cc
      go (some a) e q =
          let (r, answered) = unless_withdrawn-returned _ _ q in
          let (kind, version, payload) = stored a (read a.digest files) answered in
          (a, e, refuse-ok registry a.kind a.schema_version _ r, kind, version, payload)

module _ (registry : Registry) (files : List PayloadFile) (rows : List Artifact) where
  -- What it takes for the result of a job to leave.
  abbrev pub IsResult : String → Jobs → String → Type 0
  IsResult k jobs body =
      (j : Job) × (digest : String) × (Models.get k jobs ≡ some j)
      × (j.payload_digest ≡ some digest)
      × (read digest files ≡ some body)
      × Stands registry j.kind (version_of (newest (has_digest_of digest j.kind) rows))

  read_result-IsResult :
      (k : String) (jobs : Jobs) {body : String}
      → read_result registry files rows k jobs ≡ ok body
      → IsResult k jobs body
  unfolding read_result
  read_result-IsResult k jobs {body} h = found (Models.get k jobs) refl h
    where
      at_body :
          (j : Job) (digest : String) (o : Option String)
          → read_body registry files rows k j digest o ≡ ok body
          → (o ≡ some body)
            × Stands registry j.kind (version_of (newest (has_digest_of digest j.kind) rows))
      at_body j digest none q = cc
      at_body j digest (some b) q =
          let (u, r, same_body) = and_then-ok _ _ q in
          (cc, refuse-ok registry j.kind _ (result_of k) r)

      at_digest :
          (j : Job) (o : Option String)
          → Models.get k jobs ≡ some j
          → j.payload_digest ≡ o
          → result_at registry files rows k j o ≡ ok body
          → IsResult k jobs body
      at_digest j none g e q = cc
      at_digest j (some digest) g e q =
          let (stored, stands) = at_body j digest (read digest files) q in
          (j, digest, g, e, stored, stands)

      found :
          (o : Option Job)
          → Models.get k jobs ≡ o
          → result_for registry files rows k o ≡ ok body
          → IsResult k jobs body
      found none g q = cc
      found (some j) g q = at_digest j j.payload_digest g refl q

  -- The result of a job leaves exactly when the job is there, has a digest, the store has the
  -- payload of that digest, and nothing speaks against the version of the newest observation of
  -- the job's kind with it; what leaves is that payload.
  pub read_result-ok :
      (k : String) (jobs : Jobs) (body : String)
      → (read_result registry files rows k jobs ≡ ok body) ↔ IsResult k jobs body
  unfolding read_result
  read_result-ok k jobs body = (
    read_result-IsResult k jobs,
    (λ (j, digest, g, e, stored, stands).
        rw (g, e, stored, refuse-Stands registry j.kind _ (result_of k) stands) refl),
  )

newest-append :
    (p : Artifact → Bool) (row : Artifact) (rows : List Artifact)
    → p row ≡ true
    → All (λ a. p a ≡ true → a.fetched_at < row.fetched_at) rows
    → newest p (rows ++ row ∷ []) ≡ some row
unfolding newest
newest-append p row [] h older = rw h refl
newest-append p row (a ∷ rows) h older =
    rw (newest-append p row rows h older.1) (ground (arith, older.0))

module _ (digest_of : String → String) (payload : String)
    (no_collision : (b : String) → digest_of b ≡ digest_of payload → b ≡ payload) where
  -- What was collected under the current version of its kind is what a client reads as the result
  -- of the job that was settled with its digest: the record, the store and the route agree. The
  -- version has not been withdrawn, the observations of the kind with the same digest are older,
  -- the store is addressed by digests, and the hash has no collision with the payload.
  pub read_result-collected :
      (registry : Registry) (source : Source) (files : List PayloadFile) (rows : List Artifact)
      (o : Observation) (identifier k : String) (now : Time) (jobs : Jobs) (j : Job)
      → get o.kind registry ≡ ok source
      → o.schema_version ≡ source.schema_version
      → o.digest ≡ digest_of payload
      → contains source.schema_version source.retracted_versions ≡ false
      → All (λ a. has_digest_of o.digest o.kind a ≡ true → a.fetched_at < now) rows
      → IsAddressed digest_of files
      → Models.get k jobs ≡ some j
      → j.kind ≡ o.kind
      → j.payload_digest ≡ some o.digest
      → let rows' = (add_observation identifier now o rows).1 in
        let files' = (put digest_of o.kind payload files).1 in
        read_result registry files' rows' k jobs ≡ ok payload
  unfolding add_observation put current_source
  read_result-collected registry source files rows o identifier k now jobs j g v d stands older
        addressed found kind e =
      let row = observed_row identifier now o in
      let newest_row =
        newest-append (has_digest_of o.digest o.kind) row rows
          (ground (arith, eq_refl o.digest, eq_refl o.kind)) older in
      let known : current_source registry o.kind ≡ some source = rw (g, current_source) refl in
      let stored = read-write_file digest_of payload no_collision o.kind files addressed in
      (read_result-ok registry _ _ k jobs payload).1 (
        j,
        o.digest,
        found,
        e,
        rw d stored,
        rw (kind, newest_row, known) (inr (o.schema_version, refl, rw v stands)),
      )
