-- ===== src/Api/Submit.antt =====
-- `submit_job` and `submit_batch`, in the transaction of the request's session.
use yt_scrapper.Base.{
  ℕ, ltb, String, Bool, true, Option, none, some, is_some, List, [], ◌∷◌, ◌++◌, Time, length,
  if◌then◌else◌,
}
use yt_scrapper.Errors.{Result, ok, err, and_then, validation, text, batch_too_large}
use yt_scrapper.Models.{Job, Jobs, queued}
use yt_scrapper.Models
use yt_scrapper.Payloads.{read}
use yt_scrapper.Registry.{Source, Registry, get, attempts_for, maximum_attempts}
use yt_scrapper.Keys.{VerifiedKey}
use yt_scrapper.Collection.State.{
  Attempt, Collected, Do, Library, Outside, crashed, lift, pure, raised, returned, ◌>>=◌,
}
use yt_scrapper.Collection.Service.{cached}
use yt_scrapper.Api.Listing.{JobView, value_of}

pub record JobSubmission : Type 0 where
  pub kind : String
  pub target : String
  pub refresh : Bool
  pub webhook_url : Option String

pub record BatchSubmission : Type 0 where
  pub kind : String
  pub targets : List String
  pub refresh : Bool
  pub webhook_url : Option String

-- A target that did not have to be queued, and the digest of its answer.
pub record HeldView : Type 0 where
  pub target : String
  pub digest : String

pub record BatchView : Type 0 where
  pub queued : List JobView
  pub held : List HeldView

-- The defaults of a new row: its identifier, and two readings of the clock.
pub record Draw : Type 0 where
  pub identifier : String
  pub scheduled_at : Time
  pub created_at : Time

abbrev identifier_of : Option VerifiedKey → Option String
identifier_of none = none
identifier_of (some v) = some v.identifier

-- `Job(...)`, with the defaults of the columns.
unfoldable pub new_job :
    Source → String → String → Option VerifiedKey → Bool → Option String → Draw → Job
unfolding maximum_attempts
new_job source kind target api_key refresh webhook_url d = record {
  identifier = d.identifier;
  kind = kind;
  target = target;
  follow_up_kind = none;
  refresh = refresh;
  api_key_id = identifier_of api_key;
  state = queued;
  attempt_count = 0;
  max_attempts = attempts_for source;
  scheduled_at = d.scheduled_at;
  created_at = d.created_at;
  claimed_by = none;
  lease_expires_at = none;
  finished_at = none;
  cancel_requested_at = none;
  webhook_url = webhook_url;
  webhook_attempts = 0;
  webhook_delivered_at = none;
  payload_digest = none;
  payload_bytes = none;
  error_code = none;
  error_message = none;
}

-- The fields that the answer to a submission fills; the others have their defaults.
abbrev pub submitted_view : Job → JobView
submitted_view j = record {
  job_id = j.identifier;
  kind = j.kind;
  target = j.target;
  state = value_of j.state;
  attempt_count = j.attempt_count;
  error_code = none;
  error_message = none;
  api_key_id = none;
  claimed_by = none;
  payload_bytes = none;
  created_at = none;
  finished_at = none;
}

-- `session.add(job)` and `session.flush()`, which raises when the primary key is taken.
unfoldable pub add_job : Job → Jobs → Attempt Jobs
add_job j jobs =
    if is_some (Models.get j.identifier jobs) then crashed else returned (jobs ++ j ∷ [])

-- `Database.session`: the rows are kept if the request returns, and rolled back if it raises.
abbrev pub committed {ℓ} :
    {A : Type ℓ} → Jobs → Attempt (Jobs × A) × Library → Attempt A × Jobs × Library
committed jobs (returned (jobs', a), w) = (returned a, jobs', w)
committed jobs (raised c m, w) = (raised c m, jobs, w)
committed jobs (crashed, w) = (crashed, jobs, w)

unfoldable pub in_session {ℓ} :
    {A : Type ℓ} → (Jobs → Do (Jobs × A)) → Jobs → Library → Attempt A × Jobs × Library
in_session m jobs w = committed jobs (m jobs w)

-- `[normalize_target(source.target_type, target) for target in submission.targets]`
unfoldable pub normalize_all : (String → Result String) → List String → Result (List String)
normalize_all normalize [] = ok []
normalize_all normalize (t ∷ ts) =
    let rest = normalize_all normalize ts in
    and_then (normalize t) (λ n. and_then rest (λ ns. ok (n ∷ ns)))

abbrev pub maximum_batch : ℕ
maximum_batch = 500

-- 200 with a payload, or 202 with the job that was queued.
pub data SubmissionAnswer : Type 0 where
  held_payload : String → SubmissionAnswer
  queued_job : JobView → SubmissionAnswer

abbrev pub lift_attempt {ℓ} : {A : Type ℓ} → Attempt A → Do A
lift_attempt a w = (a, w)

module _ (o : Outside) (registry : Registry) (draw : ℕ → Draw) (api_key : Option VerifiedKey) where
  -- `if not submission.refresh: collection.cached(...)`
  abbrev pub asked_for : Bool → String → String → Do (Option Collected)
  asked_for refresh kind target = if refresh then pure none else cached o registry true kind target

  -- `payloads.read(cached.payload.digest)`; a file that is not there is an exception of another class.
  abbrev pub answer_file : Jobs → Option String → Attempt (Jobs × SubmissionAnswer)
  answer_file jobs none = crashed
  answer_file jobs (some payload) = returned (jobs, held_payload payload)

  abbrev answer_held : Collected → Jobs → Do (Jobs × SubmissionAnswer)
  answer_held c jobs w = (answer_file jobs (read c.payload.digest w.files), w)

  abbrev pub answer_added : Job → Attempt Jobs → Do (Jobs × SubmissionAnswer)
  answer_added j added = do jobs' ← lift_attempt added; pure (jobs', queued_job (submitted_view j))

  abbrev pub answer_queued : Job → Jobs → Do (Jobs × SubmissionAnswer)
  answer_queued j jobs = answer_added j (add_job j jobs)

  abbrev pub answer_job : Option Collected → Job → Jobs → Do (Jobs × SubmissionAnswer)
  answer_job none j jobs = answer_queued j jobs
  answer_job (some c) j jobs = answer_held c jobs

  abbrev pub job_route : JobSubmission → Jobs → Do (Jobs × SubmissionAnswer)
  job_route s jobs = do
    source ← lift (get s.kind registry)
    target ← lift (o.normalize source.target_type s.target)
    found ← asked_for s.refresh s.kind target
    answer_job found (new_job source s.kind target api_key s.refresh s.webhook_url (draw 0)) jobs

  unfoldable pub submit_job :
      JobSubmission → Jobs → Library → Attempt SubmissionAnswer × Jobs × Library
  unfolding cached add_job read in_session new_job
  submit_job s = in_session (job_route s)

  abbrev pub with_held : String → Collected → BatchView → BatchView
  with_held target c b = record b {
    held = b.held ++ record { target = target; digest = c.payload.digest } ∷ [];
  }

  abbrev pub with_queued : Job → BatchView → BatchView
  with_queued j b = record b { queued = b.queued ++ submitted_view j ∷ [] }

  abbrev place_queued : Job → Jobs → BatchView → Do (Jobs × BatchView)
  place_queued j jobs b = do jobs' ← lift_attempt (add_job j jobs); pure (jobs', with_queued j b)

  -- The body of the loop, after the lookup.
  abbrev pub place : String → Option Collected → Job → Jobs → BatchView → Do (Jobs × BatchView)
  place target none j jobs b = place_queued j jobs b
  place target (some c) j jobs b = pure (jobs, with_held target c b)

  abbrev pub job_of : BatchSubmission → Source → String → BatchView → Job
  job_of s source target b =
      new_job source s.kind target api_key s.refresh s.webhook_url (draw (length b.queued))

  -- The loop over the targets.
  unfoldable pub place_each :
      BatchSubmission → Source → List String → Jobs → BatchView → Do (Jobs × BatchView)
  unfolding cached add_job new_job
  place_each s source [] jobs b = pure (jobs, b)
  place_each s source (t ∷ ts) jobs b = do
    found ← asked_for s.refresh s.kind t
    placed ← place t found (job_of s source t b) jobs b
    place_each s source ts placed.0 placed.1

  -- The guards on the number of targets.
  abbrev pub is_sized : List String → Result (List String)
  is_sized [] = err validation (text "a batch names at least one target")
  is_sized (t ∷ ts) =
      let n = length (t ∷ ts) in
      if ltb maximum_batch n then err validation (batch_too_large n) else ok (t ∷ ts)

  abbrev pub batch_targets : BatchSubmission → Source → Result (List String)
  batch_targets s source =
      and_then (is_sized s.targets) (normalize_all (o.normalize source.target_type))

  abbrev pub batch_route : BatchSubmission → Jobs → Do (Jobs × BatchView)
  batch_route s jobs = do
    source ← lift (get s.kind registry)
    targets ← lift (batch_targets s source)
    place_each s source targets jobs (record { queued = []; held = [] })

  unfoldable pub submit_batch :
      BatchSubmission → Jobs → Library → Attempt BatchView × Jobs × Library
  unfolding place_each normalize_all in_session
  submit_batch s = in_session (batch_route s)
