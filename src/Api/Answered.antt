-- ===== src/Api/Answered.antt =====
-- `submit_job`, on both of its answers.
use yt_scrapper.Base.{ℕ, String, false, Option, none, some, [], ◌∷◌, ◌++◌, ◌≡◌, refl, ◌⊎◌, inl, inr}
use yt_scrapper.Json.{Json}
use yt_scrapper.Errors.{ok}
use yt_scrapper.Models.{Job, Jobs}
use yt_scrapper.Models
use yt_scrapper.Payloads.{read}
use yt_scrapper.Registry.{Source, Registry, get}
use yt_scrapper.Keys.{VerifiedKey}
use yt_scrapper.Collection.State.{
  Attempt, Collected, Do, Library, Outside, returned, raised, crashed, lift, ◌>>=◌,
}
use yt_scrapper.Collection.Service.{asked}
use yt_scrapper.Collection.Again.{answer}
use yt_scrapper.Api.Submit.{
  JobSubmission, Draw, new_job, submitted_view, add_job, asked_for, SubmissionAnswer, held_payload,
  queued_job, job_route, answer_job, answer_file, answer_added, submit_job, lift_attempt,
}
use yt_scrapper.Api.Batches.{>>=-returned, lift-returned, add_job-returned, asked_for-some}
use yt_scrapper.Api.Queueing.{Kept, in_session-Kept}

module _ (o : Outside) (registry : Registry) (draw : ℕ → Draw) (api_key : Option VerifiedKey)
    (s : JobSubmission) where
  -- The two answers to a submission that returned: a payload that the store has, when no refresh
  -- was asked for, with the table as it was; or one new row, which no row had the key of.
  abbrev IsAnswered : Jobs → SubmissionAnswer → Jobs → Type 0
  IsAnswered jobs answer jobs' =
      (source : Source) × (t : String) × (get s.kind registry ≡ ok source)
      × (o.normalize source.target_type s.target ≡ ok t)
      × (((payload : String) × (answer ≡ held_payload payload)
            × (s.refresh ≡ false)
            × (jobs' ≡ jobs))
          ⊎ (let j = new_job source s.kind t api_key s.refresh s.webhook_url (draw 0) in
              (Models.get j.identifier jobs ≡ none)
              × (answer ≡ queued_job (submitted_view j))
              × (jobs' ≡ jobs ++ j ∷ [])))

  answer_file-returned :
      (jobs : Jobs) (found : Option String) (w : Library) {jobs' : Jobs} {answer : SubmissionAnswer}
      {w' : Library}
      → lift_attempt (answer_file o registry draw api_key jobs found) w
        ≡ (returned (jobs', answer), w')
      → (payload : String) × (answer ≡ held_payload payload) × (jobs' ≡ jobs)
  answer_file-returned jobs none w h = cc
  answer_file-returned jobs (some payload) w h = (payload, cc, cc)

  answer_queued-returned :
      (j : Job) (jobs : Jobs) (a : Attempt Jobs) (w : Library) {jobs' : Jobs}
      {answer : SubmissionAnswer} {w' : Library}
      → add_job j jobs ≡ a
      → answer_added o registry draw api_key j a w ≡ (returned (jobs', answer), w')
      → (Models.get j.identifier jobs ≡ none)
        × (answer ≡ queued_job (submitted_view j))
        × (jobs' ≡ jobs ++ j ∷ [])
  answer_queued-returned j jobs (returned js) w e h =
      let (absent, same_jobs) = add_job-returned j jobs e in (absent, cc, cc)
  answer_queued-returned j jobs (raised c m) w e h = cc
  answer_queued-returned j jobs crashed w e h = cc

  job_route-returned :
      (jobs : Jobs) (answer : SubmissionAnswer) (jobs' : Jobs) (w w' : Library)
      → job_route o registry draw api_key s jobs w ≡ (returned (jobs', answer), w')
      → IsAnswered jobs answer jobs'
  job_route-returned jobs answer jobs' w w' h =
      let row : Source → String → Job =
        λ source t. new_job source s.kind t api_key s.refresh s.webhook_url (draw 0) in
      let last : Source → String → Option Collected → Do (Jobs × SubmissionAnswer) =
        λ source t found. answer_job o registry draw api_key found (row source t) jobs in
      let (source, w0, known, h0) =
        >>=-returned (lift (get s.kind registry))
          (λ source. lift (o.normalize source.target_type s.target) >>= λ t.
            asked_for o registry draw api_key s.refresh s.kind t >>= last source t)
          w h in
      let (t, w1, normal, h1) =
        >>=-returned (lift (o.normalize source.target_type s.target))
          (λ t. asked_for o registry draw api_key s.refresh s.kind t >>= last source t) w0 h0 in
      let (found, w2, asked, h2) =
        >>=-returned (asked_for o registry draw api_key s.refresh s.kind t) (last source t) w1 h1 in
      (
        source,
        t,
        (lift-returned (get s.kind registry) {w = w} {w' = w0} known).0,
        (lift-returned (o.normalize source.target_type s.target) {w = w0} {w' = w1} normal).0,
        go (row source t) t found w1 w2 asked h2,
      )
    where
      go :
          (j : Job) (t : String) (found : Option Collected) (w1 w2 : Library)
          → asked_for o registry draw api_key s.refresh s.kind t w1 ≡ (returned found, w2)
          → answer_job o registry draw api_key found j jobs w2 ≡ (returned (jobs', answer), w')
          → ((payload : String) × (answer ≡ held_payload payload)
              × (s.refresh ≡ false)
              × (jobs' ≡ jobs))
            ⊎ ((Models.get j.identifier jobs ≡ none)
                × (answer ≡ queued_job (submitted_view j))
                × (jobs' ≡ jobs ++ j ∷ []))
      go j t none w1 w2 asked q = inr (answer_queued-returned j jobs (add_job j jobs) w2 refl q)
      go j t (some c) w1 w2 asked q =
          let (payload, e, same_jobs) =
            answer_file-returned jobs (read c.payload.digest w2.files) w2 q in
          inl (
            payload,
            e,
            asked_for-some o registry draw api_key s.refresh s.kind t w1 asked,
            same_jobs,
          )

  -- A submission that returns either hands out a payload of the store and queues nothing, which it
  -- never does when a refresh was asked for, or queues one new row and answers with it; one that
  -- raises leaves the table as it was.
  submit_job-Kept :
      (jobs : Jobs) (w : Library)
      → Kept jobs (IsAnswered jobs) (submit_job o registry draw api_key s jobs w)
  unfolding submit_job
  submit_job-Kept jobs w =
      in_session-Kept (job_route o registry draw api_key s) (IsAnswered jobs) jobs w
        (λ answer jobs' w' h. job_route-returned jobs answer jobs' w w' h)
