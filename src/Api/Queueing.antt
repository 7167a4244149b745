-- ===== src/Api/Queueing.antt =====
-- What a submission does to the queue, whole.
use yt_scrapper.Base.{
  ◌∙◌, ℕ, ◌≤◌, ◌<◌, String, Bool, Option, none, some, List, [], ◌∷◌, ◌++◌, length, ◌≡◌, ◌≢◌, refl,
  sym, subst, arith, ◌⊎◌, inl, inr,
}
use yt_scrapper.Errors.{ok}
use yt_scrapper.Models.{Jobs, queued}
use yt_scrapper.Models
use yt_scrapper.Registry.{Source, Registry, get}
use yt_scrapper.Keys.{VerifiedKey}
use yt_scrapper.Floats.{FloatOps}
use yt_scrapper.Lifecycle.{submits, Timely, here, next}
use yt_scrapper.Collection.State.{
  Attempt, Collected, Do, Library, Outside, returned, raised, crashed, lift, ◌>>=◌,
}
use yt_scrapper.Api.Submit.{
  BatchSubmission, BatchView, Draw, new_job, committed, in_session, normalize_all, asked_for, place,
  place_each, job_of, batch_targets, batch_route, submit_batch, maximum_batch,
}
use yt_scrapper.Api.Batches.{
  Placed, >>=-returned, lift-returned, attempts_for-positive, place-queued,
}

abbrev empty : BatchView
empty = record { queued = []; held = [] }

-- A request that returned and kept its rows, or that raised and left the table as it was.
abbrev pub Kept {ℓ} :
    {A : Type ℓ} → Jobs → (A → Jobs → Type 0) → Attempt A × Jobs × Library → Type ℓ
Kept {A = A} jobs Good (answer, jobs', w) =
    ((a : A) × (answer ≡ returned a) × Good a jobs')
    ⊎ (((a : A) → answer ≢ returned a) × (jobs' ≡ jobs))

pub in_session-Kept :
    {A : Type 0} (m : Jobs → Do (Jobs × A)) (Good : A → Jobs → Type 0) (jobs : Jobs) (w : Library)
    → ((a : A) (jobs' : Jobs) (w' : Library) → m jobs w ≡ (returned (jobs', a), w') → Good a jobs')
    → Kept jobs Good (in_session m jobs w)
unfolding in_session
in_session-Kept {A} m Good jobs w good = go (m jobs w) refl
  where
    go : (r : Attempt (Jobs × A) × Library) → m jobs w ≡ r → Kept jobs Good (committed jobs r)
    go (returned (jobs', a), w') e = inl (a, refl, good a jobs' w' e)
    go (raised c message, w') e = inr ((λ a q. cc), refl)
    go (crashed, w') e = inr ((λ a q. cc), refl)

module _ (o : Outside) (registry : Registry) (draw : ℕ → Draw) (api_key : Option VerifiedKey) where
  -- What a batch that returned has done: its kind is registered, all its targets are normal, they
  -- are at most 500, and each in turn was queued or held.
  abbrev pub IsQueued : Library → BatchSubmission → Jobs → BatchView → Jobs → Type 0
  IsQueued w s jobs v jobs' =
      (source : Source) × (ts : List String) × (get s.kind registry ≡ ok source)
      × (normalize_all (o.normalize source.target_type) s.targets ≡ ok ts)
      × (0 < length s.targets)
      × (length s.targets ≤ maximum_batch)
      × Placed o registry draw api_key s source w ts jobs jobs' empty v

  -- The chain of the route, up to its loop.
  batch_route-returned :
      (s : BatchSubmission) (jobs : Jobs) (w : Library) {v : BatchView} {jobs' : Jobs}
      {w' : Library}
      → batch_route o registry draw api_key s jobs w ≡ (returned (jobs', v), w')
      → (source : Source) × (ts : List String) × (w1 : Library) × (get s.kind registry ≡ ok source)
        × (batch_targets o registry draw api_key s source ≡ ok ts)
        × (place_each o registry draw api_key s source ts jobs empty w1 ≡ (returned (jobs', v), w'))
        × (w1 ≡ w)
  batch_route-returned s jobs w h =
      let (source, w0, known, h0) =
        >>=-returned (lift (get s.kind registry))
          (λ source. lift (batch_targets o registry draw api_key s source) >>= λ ts.
            place_each o registry draw api_key s source ts jobs empty)
          w h in
      let (ts, w1, normal, h1) =
        >>=-returned (lift (batch_targets o registry draw api_key s source))
          (λ ts. place_each o registry draw api_key s source ts jobs empty) w0 h0 in
      (
        source,
        ts,
        w1,
        (lift-returned (get s.kind registry) {w = w} {w' = w0} known).0,
        (lift-returned (batch_targets o registry draw api_key s source) {w = w0} {w' = w1}
            normal).0,
        h1,
        sym (
            (lift-returned (get s.kind registry) {w = w} {w' = w0} known).1
            ∙ (lift-returned (batch_targets o registry draw api_key s source) {w = w0} {w' = w1}
                normal).1),
      )

  -- A new row is one of the steps of the queue's life.
  Reach-queued :
      (fl : FloatOps) (js jobs : Jobs) (source : Source) (kind target : String) (refresh : Bool)
      (url : Option String) (d : Draw)
      → Models.get d.identifier jobs ≡ none
      → Timely fl js jobs
      → Timely fl js (jobs ++ new_job source kind target api_key refresh url d ∷ [])
  unfolding new_job
  Reach-queued fl js jobs source kind target refresh url d absent r = (
    next r.0 (submits _ absent refl refl (attempts_for-positive source)),
    λ k. omega (arith, r.1 k),
  )

  place_each-Reach :
      (fl : FloatOps) (js : Jobs) (s : BatchSubmission) (source : Source) (ts : List String)
      (jobs : Jobs) (b : BatchView) (w : Library) {jobs' : Jobs} {b' : BatchView} {w' : Library}
      → Timely fl js jobs
      → place_each o registry draw api_key s source ts jobs b w ≡ (returned (jobs', b'), w')
      → Timely fl js jobs'
  unfolding place_each new_job
  place_each-Reach fl js s source [] jobs b w {jobs'} r h =
      let same_jobs : jobs ≡ jobs' = cc in subst (Timely fl js) same_jobs r
  place_each-Reach fl js s source (t ∷ ts) jobs b w {jobs'} {b'} {w'} r h =
      let rest : Jobs × BatchView → Do (Jobs × BatchView) =
        λ placed. place_each o registry draw api_key s source ts placed.0 placed.1 in
      let j = job_of o registry draw api_key s source t b in
      let (found, w1, asked, h1) =
        >>=-returned (asked_for o registry draw api_key s.refresh s.kind t)
          (λ found. (place o registry draw api_key t found j jobs b) >>= rest) w h in
      let (placed, w2, put, h2) =
        >>=-returned (place o registry draw api_key t found j jobs b) rest w1 h1 in
      place_each-Reach fl js s source ts placed.0 placed.1 w2 (with_found found w1 w2 placed put) h2
    where
      with_found :
          (found : Option Collected) (w1 w2 : Library) (placed : Jobs × BatchView)
          → place o registry draw api_key t found
              (job_of o registry draw api_key s source t b)
              jobs
              b
              w1
            ≡ (returned placed, w2)
          → Timely fl js placed.0
      with_found none w1 w2 placed put =
          let (absent, e, _) =
            place-queued o registry draw api_key s source w1 t
              (job_of o registry draw api_key s source t b) jobs b w1 put in
          subst (λ x. Timely fl js x.0) (sym e)
            (Reach-queued fl js jobs source s.kind t s.refresh s.webhook_url
              (draw (length b.queued)) absent r)
      with_found (some c) w1 w2 placed put =
          let same_jobs : jobs ≡ placed.0 = cc in subst (Timely fl js) same_jobs r

  -- A batch, whatever comes of it, changes the table only by steps of the queue's life, none of them
  -- a late write, so that what holds of all of these holds after it.
  pub submit_batch-Reach :
      (fl : FloatOps) (s : BatchSubmission) (jobs : Jobs) (w : Library)
      → Timely fl jobs (submit_batch o registry draw api_key s jobs w).1
  unfolding submit_batch in_session
  submit_batch-Reach fl s jobs w = go (batch_route o registry draw api_key s jobs w) refl
    where
      go :
          (r : Attempt (Jobs × BatchView) × Library)
          → batch_route o registry draw api_key s jobs w ≡ r
          → Timely fl jobs (committed jobs r).1
      go (returned (jobs', v), w') e =
          let (source, ts, w1, known, normal, placed, _) = batch_route-returned s jobs w e in
          place_each-Reach fl jobs s source ts jobs empty w1 (here, λ k. refl) placed
      go (raised c message, w') e = (here, λ k. refl)
      go (crashed, w') e = (here, λ k. refl)
