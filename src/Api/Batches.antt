-- ===== src/Api/Batches.antt =====
-- The loop of `submit_batch`: what it adds to the queue and to the answer.
use yt_scrapper.Base.{
  ℕ, ◌≤◌, String, Bool, true, false, Option, none, some, is_some, List, [], ◌∷◌, ◌++◌, map, length,
  All, ◌≡◌, refl, sym, subst, ◌∙◌, arith, if◌then◌else◌,
}
use yt_scrapper.Errors.{Result, ok, err}
use yt_scrapper.Models.{Job, Jobs, queued}
use yt_scrapper.Models
use yt_scrapper.Collection.Service.{cached, cached_answer}
use yt_scrapper.Registry.{get, Source, Registry, attempts_for, maximum_attempts}
use yt_scrapper.Keys.{VerifiedKey}
use yt_scrapper.Collection.State.{
  Attempt, Collected, Do, Library, Outside, returned, raised, crashed, lift, pure, ◌>>=◌,
}
use yt_scrapper.Collection.State
use yt_scrapper.Api.Submit.{
  BatchSubmission, HeldView, BatchView, Draw, new_job, submitted_view, add_job, asked_for,
  with_queued, with_held, place, place_each, job_of,
}
use yt_scrapper.Base.{append-nil, append_assoc}

-- Every target is either queued or held, in the order of the batch.
pub data Splits : List String → List String → List String → Type 0 where
  done : Splits [] [] []
  queues : {t : String} {ts qs hs : List String} → Splits ts qs hs → Splits (t ∷ ts) (t ∷ qs) hs
  holds : {t : String} {ts qs hs : List String} → Splits ts qs hs → Splits (t ∷ ts) qs (t ∷ hs)

-- A chain of actions that returns.
next-returned :
    {A B : Type 0} (r : Attempt A × Library) (f : A → Do B) {b : B} {w : Library}
    → State.next r f ≡ (returned b, w)
    → (a : A) × (w' : Library) × (r ≡ (returned a, w')) × (f a w' ≡ (returned b, w))
next-returned (returned a, w') f h = (a, w', refl, h)
next-returned (raised c m, w') f h = cc
next-returned (crashed, w') f h = cc

pub >>=-returned :
    {A B : Type 0} (m : Do A) (f : A → Do B) (w : Library) {b : B} {w' : Library}
    → (m >>= f) w ≡ (returned b, w')
    → (a : A) × (w1 : Library) × (m w ≡ (returned a, w1)) × (f a w1 ≡ (returned b, w'))
>>=-returned m f w h = next-returned (m w) f h

pub lift-returned :
    {A : Type 0} (r : Result A) {a : A} {w w' : Library}
    → lift r w ≡ (returned a, w')
    → (r ≡ ok a) × (w ≡ w')
lift-returned (ok a) h = (cc, cc)
lift-returned (err c m) h = cc

pub add_job-returned :
    (j : Job) (jobs : Jobs) {jobs' : Jobs}
    → add_job j jobs ≡ returned jobs'
    → (Models.get j.identifier jobs ≡ none) × (jobs' ≡ jobs ++ j ∷ [])
unfolding add_job
add_job-returned j jobs {jobs'} h = go (Models.get j.identifier jobs) refl h
  where
    go :
        (o : Option Job)
        → Models.get j.identifier jobs ≡ o
        → (if is_some o then crashed else returned (jobs ++ j ∷ [])) ≡ returned jobs'
        → (Models.get j.identifier jobs ≡ none) × (jobs' ≡ jobs ++ j ∷ [])
    go none e q = (e, cc)
    go (some i) e q = cc

pub attempts_for-positive : (source : Source) → 1 ≤ attempts_for source
unfolding maximum_attempts
attempts_for-positive source = ground arith

module _ (o : Outside) (registry : Registry) (draw : ℕ → Draw) (api_key : Option VerifiedKey) where
  pub asked_for-some :
      (refresh : Bool) (kind t : String) (w : Library) {c : Collected} {w' : Library}
      → asked_for o registry draw api_key refresh kind t w ≡ (returned (some c), w')
      → refresh ≡ false
  asked_for-some true kind t w h = cc
  asked_for-some false kind t w h = refl

module _ (o : Outside) (registry : Registry) (draw : ℕ → Draw) (api_key : Option VerifiedKey)
    (s : BatchSubmission) (source : Source) (library : Library) where
  -- The index and the files, which a batch leaves as they are.
  abbrev pub Same : Library → Type 0
  Same w = (w.rows ≡ library.rows) × (w.files ≡ library.files)

  -- The digest is that of the answer that the cache has for the target.
  abbrev pub IsHeld : HeldView → Type 0
  IsHeld h =
      (w : Library) × (w' : Library) × (c : Collected) × Same w
      × (cached o registry true s.kind h.target w ≡ (returned (some c), w'))
      × (h.digest ≡ c.payload.digest)

  asked_for-Same :
      (refresh : Bool) (t : String) (w : Library)
      → Same w
      → Same (asked_for o registry draw api_key refresh s.kind t w).1
  unfolding cached cached_answer
  asked_for-Same true t w h = h
  asked_for-Same false t w h = go (get s.kind registry)
    where
      go :
          (r : Result Source)
          → Same (State.next (lift r w) (λ source. cached_answer o registry true source t)).1
      go (ok source) = h
      go (err c m) = h

  -- A row as the submission asks for it, with all its attempts to come.
  abbrev pub IsNew : Job → Type 0
  IsNew j =
      (j.kind ≡ s.kind)
      × (j.refresh ≡ s.refresh)
      × (j.webhook_url ≡ s.webhook_url)
      × (j.state ≡ queued)
      × (j.attempt_count ≡ 0)
      × (j.max_attempts ≡ attempts_for source)

  -- What the rest of a batch adds to the queue and to its answer.
  pub record Placed (ts : List String) (jobs jobs' : Jobs) (b b' : BatchView) : Type 0 where
    pub new : List Job
    pub held : List HeldView
    pub added : jobs' ≡ jobs ++ new
    pub answered : b'.queued ≡ b.queued ++ map submitted_view new
    pub answered_held : b'.held ≡ b.held ++ held
    pub splits : Splits ts (map (λ j. j.target) new) (map (λ h. h.target) held)
    pub fresh : All IsNew new
    pub answers : All IsHeld held
    pub refreshed : s.refresh ≡ true → held ≡ []

  Placed-none : (jobs : Jobs) (b : BatchView) → Placed [] jobs jobs b b
  Placed-none jobs b = record {
    new = [];
    held = [];
    added = sym (append-nil jobs);
    answered = sym (append-nil b.queued);
    answered_held = sym (append-nil b.held);
    splits = done;
    fresh = tt;
    answers = tt;
    refreshed = λ e. refl;
  }

  -- The target is queued, or held, before the rest.
  Placed-queued :
      (t : String) (ts : List String) (jobs jobs' : Jobs) (b b' : BatchView) (d : Draw)
      → let j = new_job source s.kind t api_key s.refresh s.webhook_url d in
        Placed ts (jobs ++ j ∷ []) jobs' (with_queued o registry draw api_key j b) b'
        → Placed (t ∷ ts) jobs jobs' b b'
  unfolding new_job
  Placed-queued t ts jobs jobs' b b' d p =
      let j = new_job source s.kind t api_key s.refresh s.webhook_url d in
      record {
        new = j ∷ p.new;
        held = p.held;
        added = p.added ∙ append_assoc jobs (j ∷ []) p.new;
        answered =
            p.answered ∙ append_assoc b.queued ((submitted_view j) ∷ []) (map submitted_view p.new);
        answered_held = p.answered_held;
        splits = queues p.splits;
        fresh = ((refl, refl, refl, refl, refl, refl), p.fresh);
        answers = p.answers;
        refreshed = p.refreshed;
      }

  Placed-held :
      (t : String) (ts : List String) (jobs jobs' : Jobs) (b b' : BatchView) (c : Collected)
      → s.refresh ≡ false
      → IsHeld (record { target = t; digest = c.payload.digest })
      → Placed ts jobs jobs' (with_held o registry draw api_key t c b) b'
      → Placed (t ∷ ts) jobs jobs' b b'
  Placed-held t ts jobs jobs' b b' c r answer p =
      let h : HeldView = record { target = t; digest = c.payload.digest } in
      record {
        new = p.new;
        held = h ∷ p.held;
        added = p.added;
        answered = p.answered;
        answered_held = p.answered_held ∙ append_assoc b.held (h ∷ []) p.held;
        splits = holds p.splits;
        fresh = p.fresh;
        answers = (answer, p.answers);
        refreshed = λ e. cc;
      }

  pub place-queued :
      (t : String) (j : Job) (jobs : Jobs) (b : BatchView) (w : Library) {placed : Jobs × BatchView}
      {w' : Library}
      → place o registry draw api_key t none j jobs b w ≡ (returned placed, w')
      → (Models.get j.identifier jobs ≡ none)
        × (placed ≡ (jobs ++ j ∷ [], with_queued o registry draw api_key j b))
        × (w ≡ w')
  place-queued t j jobs b w {placed} {w'} h = go (add_job j jobs) refl h
    where
      go :
          (a : Attempt Jobs)
          → add_job j jobs ≡ a
          → State.next (a, w) (λ js. pure (js, with_queued o registry draw api_key j b))
            ≡ (returned placed, w')
          → (Models.get j.identifier jobs ≡ none)
            × (placed ≡ (jobs ++ j ∷ [], with_queued o registry draw api_key j b))
            × (w ≡ w')
      go (returned js) e q = let (absent, same_jobs) = add_job-returned j jobs e in (absent, cc, cc)
      go (raised c m) e q = cc
      go crashed e q = cc

  asked_for-cached :
      (refresh : Bool) (t : String) (w : Library) {c : Collected} {w1 : Library}
      → asked_for o registry draw api_key refresh s.kind t w ≡ (returned (some c), w1)
      → cached o registry true s.kind t w ≡ (returned (some c), w1)
  asked_for-cached true t w h = cc
  asked_for-cached false t w h = h

  with_found :
      (t : String) (ts : List String) (jobs jobs' : Jobs) (b b' : BatchView) (w w1 w2 : Library)
      (found : Option Collected) (placed : Jobs × BatchView)
      → asked_for o registry draw api_key s.refresh s.kind t w ≡ (returned found, w1)
      → place o registry draw api_key t found
          (job_of o registry draw api_key s source t b)
          jobs
          b
          w1
        ≡ (returned placed, w2)
      → Same w
      → Placed ts placed.0 jobs' placed.1 b'
      → Placed (t ∷ ts) jobs jobs' b b'
  with_found t ts jobs jobs' b b' w w1 w2 none placed asked put same p =
      let j = job_of o registry draw api_key s source t b in
      let same_placed = (place-queued t j jobs b w1 put).1 in
      Placed-queued t ts jobs jobs' b b' (draw (length b.queued))
        (subst (λ x. Placed ts x.0 jobs' x.1 b') same_placed p)
  with_found t ts jobs jobs' b b' w w1 w2 (some c) placed asked put same p =
      let same_placed : placed ≡ (jobs, with_held o registry draw api_key t c b) = cc in
      Placed-held t ts jobs jobs' b b' c
        (asked_for-some o registry draw api_key s.refresh s.kind t w asked)
        (w, w1, c, same, asked_for-cached s.refresh t w asked, refl)
        (subst (λ x. Placed ts x.0 jobs' x.1 b') same_placed p)

  -- Neither a lookup nor a row that is added changes the index or the files.
  placed-Same :
      (t : String) (jobs : Jobs) (b : BatchView) (w w1 w2 : Library) (found : Option Collected)
      (placed : Jobs × BatchView)
      → asked_for o registry draw api_key s.refresh s.kind t w ≡ (returned found, w1)
      → place o registry draw api_key t found
          (job_of o registry draw api_key s source t b)
          jobs
          b
          w1
        ≡ (returned placed, w2)
      → Same w
      → Same w2
  placed-Same t jobs b w w1 w2 found placed asked put same =
      subst Same (moved found put) (subst (λ a. Same a.1) asked (asked_for-Same s.refresh t w same))
    where
      moved :
          (found : Option Collected)
          → place o registry draw api_key t found
              (job_of o registry draw api_key s source t b)
              jobs
              b
              w1
            ≡ (returned placed, w2)
          → w1 ≡ w2
      moved none put =
          (place-queued t (job_of o registry draw api_key s source t b) jobs b w1 put).2
      moved (some c) put = cc

  pub place_each-Placed :
      (ts : List String) (jobs : Jobs) (b : BatchView) (w : Library) {jobs' : Jobs} {b' : BatchView}
      {w' : Library}
      → Same w
      → place_each o registry draw api_key s source ts jobs b w ≡ (returned (jobs', b'), w')
      → Placed ts jobs jobs' b b'
  unfolding place_each
  place_each-Placed [] jobs b w {jobs'} {b'} same h =
      let same_jobs : jobs ≡ jobs' = cc in
      let same_view : b ≡ b' = cc in rw (← same_jobs, ← same_view) (Placed-none jobs b)
  place_each-Placed (t ∷ ts) jobs b w {jobs'} {b'} {w'} same h =
      let rest : Jobs × BatchView → Do (Jobs × BatchView) =
        λ placed. place_each o registry draw api_key s source ts placed.0 placed.1 in
      let j = job_of o registry draw api_key s source t b in
      let (found, w1, asked, h1) =
        >>=-returned (asked_for o registry draw api_key s.refresh s.kind t)
          (λ found. (place o registry draw api_key t found j jobs b) >>= rest) w h in
      let (placed, w2, put, h2) =
        >>=-returned (place o registry draw api_key t found j jobs b) rest w1 h1 in
      with_found t ts jobs jobs' b b' w w1 w2 found placed asked put same (
        place_each-Placed ts placed.0 placed.1 w2
          (placed-Same t jobs b w w1 w2 found placed asked put same) h2)
