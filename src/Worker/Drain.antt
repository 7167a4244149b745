-- ===== src/Worker/Drain.antt =====
-- `Worker.drain` and `Worker.run_once`. What a worker reads as it goes on, whether it is to stop or
-- to pause and what its claim and its execution meet, is one `Turn` for each time round the loop.
pub mod Pool
pub mod Limit
pub mod Stopping
use yt_scrapper.Base.{
  ℕ, zero, suc, ◌+◌, ◌-◌, String, Bool, true, false, Option, none, some, List, [], ◌∷◌, Time, leb,
  ◌||◌, not, ◌==◌, any, if◌then◌else◌,
}
use yt_scrapper.Floats.{FloatOps}
use yt_scrapper.Models.{Job}
use yt_scrapper.Registry.{Registry}
use yt_scrapper.Queue.{reap_expired_leases}
use yt_scrapper.Webhooks.{Announcement, deliver_pending}
use yt_scrapper.Worker.Gates.{claim_job}
use yt_scrapper.Worker.Execute.{World, Circumstances, execute}

-- What the constructor of the worker keeps.
pub record Worker : Type 0 where
  pub registry : Registry
  pub name : String
  pub egress : String
  pub concurrency : ℕ
  pub lease : Time

-- Where a thread of the pool stands in `pump`.
pub data Pump : Type 0 where
  starting reserving withdrawing counting done crashed : Pump
  executing : Job → Pump

abbrev pub is_finished : Pump → Bool
is_finished done = true
is_finished crashed = true
is_finished _ = false

abbrev pub is_crashed : Pump → Bool
is_crashed crashed = true
is_crashed _ = false

abbrev pub reaches : Option ℕ → ℕ → Bool
reaches none n = false
reaches (some limit) n = leb limit n

abbrev pub pool_of : ℕ → List Pump
pool_of zero = []
pool_of (suc n) = starting ∷ pool_of n

-- The sender's `deliver_pending`, if the worker has a secret to sign with.
pub record Delivery : Type 0 where
  pub maximum : ℕ
  pub send : Announcement → Bool
  pub at : Time

module _ (fl : FloatOps) where
  pub record Turn : Type 0 where
    pub stopping : Bool
    pub paused : Bool
    pub locked : String → Bool
    pub claimed_at : Time
    pub circumstances : Circumstances fl

  -- What the threads of the pool share.
  pub record Shared : Type 0 where
    pub reserved : ℕ
    pub completed : ℕ
    pub world : World fl

  -- How a drain ends: with its count, by an exception, or not yet when the turns have run out.
  pub data Drained : Type 0 where
    returned : ℕ → World fl → Drained
    raised : World fl → Drained
    unfinished : Drained

  abbrev deliver : Option Delivery → World fl → World fl
  deliver none w = w
  deliver (some d) w = record w { jobs = (deliver_pending d.maximum d.send d.at w.jobs).1 }

  -- `deliver_webhooks`, for its effect.
  unfoldable pub deliver_webhooks : Option Delivery → World fl → World fl
  deliver_webhooks d w = deliver d w

  -- `reap`, for its effect.
  unfoldable pub reap : Time → World fl → World fl
  reap now w = record w { jobs = (reap_expired_leases now w.jobs).1 }

  abbrev claims : Worker → Turn → World fl → Option Job × World fl
  claims v t w =
      let (claimed, js, s) =
        claim_job v.registry v.concurrency v.name v.lease t.locked t.claimed_at w.jobs w.slots in
      (claimed, record w { jobs = js; slots = s })

  abbrev executes : Worker → Turn → Job → World fl → World fl × Bool
  executes v t j w =
      execute fl v.registry v.egress j.identifier j.kind j.target j.follow_up_kind t.circumstances w

  -- `run_once`: whether there was a job, the world after it, and whether an exception leaves.
  abbrev run_claimed : Worker → Turn → Option Job × World fl → Bool × World fl × Bool
  run_claimed v t (none, w) = (false, w, false)
  run_claimed v t (some j, w) = let (w', was_raised) = executes v t j w in (true, w', was_raised)

  unfoldable pub run_once : Worker → Turn → World fl → Bool × World fl × Bool
  run_once v t w = run_claimed v t (claims v t w)

  -- The loop for a concurrency of one. The count goes up after the job has ended.
  unfoldable pub drain_serial : Worker → Option ℕ → List Turn → ℕ → World fl → Drained
  unfolding run_once
  drain_serial v limit [] n w = unfinished
  drain_serial v limit (t ∷ ts) n w =
      let (was_any, w', was_raised) = run_once v t w in
      let rest = drain_serial v limit ts (suc n) w' in
      if reaches limit n || t.stopping || t.paused
      then returned n w
      else if was_raised
      then raised w'
      else if was_any
      then rest
      else returned n w'

  abbrev pump_claimed : Shared → Option Job × World fl → Pump × Shared
  pump_claimed s (none, w) = (withdrawing, record s { world = w })
  pump_claimed s (some j, w) = (executing j, record s { world = w })

  abbrev pump_executed : Shared → World fl × Bool → Pump × Shared
  pump_executed s (w, was_raised) =
      ((if was_raised then crashed else counting), record s { world = w })

  -- One atomic action of `pump`: a reservation with the test of the stop event before it, a claim,
  -- an execution, a count.
  unfoldable pub pump : Worker → Option ℕ → Turn → Pump → Shared → Pump × Shared
  pump v limit t starting s =
      if t.stopping || t.paused || reaches limit s.reserved
      then (done, s)
      else (reserving, record s { reserved = s.reserved + 1 })
  pump v limit t reserving s = pump_claimed s (claims v t s.world)
  pump v limit t withdrawing s = (done, record s { reserved = s.reserved - 1 })
  pump v limit t (executing j) s = pump_executed s (executes v t j s.world)
  pump v limit t counting s = (starting, record s { completed = s.completed + 1 })
  pump v limit t done s = (done, s)
  pump v limit t crashed s = (crashed, s)

  -- One action of the thread at a place of the pool.
  unfoldable pub pump_at : Worker → Option ℕ → Turn → ℕ → List Pump → Shared → List Pump × Shared
  unfolding pump
  pump_at v limit t i [] s = ([], s)
  pump_at v limit t zero (p ∷ ps) s = let (p', s') = pump v limit t p s in (p' ∷ ps, s')
  pump_at v limit t (suc i) (p ∷ ps) s = let (ps', s') = pump_at v limit t i ps s in (p ∷ ps', s')

  -- A schedule says which thread acts next, and on what turn.
  unfoldable pub run_pool :
      Worker → Option ℕ → List (ℕ × Turn) → List Pump → Shared → List Pump × Shared
  unfolding pump_at
  run_pool v limit [] ps s = (ps, s)
  run_pool v limit ((i, t) ∷ schedule) ps s =
      let (ps', s') = pump_at v limit t i ps s in run_pool v limit schedule ps' s'

  -- `future.result()` of every thread: an exception of one leaves the drain.
  abbrev collect_pool : List Pump × Shared → Drained
  collect_pool (ps, s) =
      if any (λ p. not (is_finished p)) ps
      then unfinished
      else if any is_crashed ps
      then raised s.world
      else returned s.completed s.world

  unfoldable pub drain_pool : Worker → Option ℕ → List (ℕ × Turn) → World fl → Drained
  unfolding run_pool
  drain_pool v limit schedule w = collect_pool (
      run_pool v limit schedule (pool_of v.concurrency)
        (record { reserved = 0; completed = 0; world = w }))

  abbrev delivered : Option Delivery → Drained → Drained
  delivered d (returned n w) = returned n (deliver_webhooks d w)
  delivered d r = r

  -- What one drain reads. The schedule serves a pool, and its turns alone a single thread.
  pub record Pass : Type 0 where
    pub first_delivery : Option Delivery
    pub reaped_at : Time
    pub is_paused : Bool
    pub schedule : List (ℕ × Turn)
    pub last_delivery : Option Delivery

  abbrev pub turns_of : List (ℕ × Turn) → List Turn
  turns_of [] = []
  turns_of ((_, t) ∷ schedule) = t ∷ turns_of schedule

  unfoldable pub drain : Worker → Option ℕ → Pass → World fl → Drained
  unfolding deliver_webhooks reap drain_serial drain_pool
  drain v limit p w =
      let w' = reap p.reaped_at (deliver_webhooks p.first_delivery w) in
      if p.is_paused
      then returned 0 w'
      else if v.concurrency == 1
      then delivered p.last_delivery (drain_serial v limit (turns_of p.schedule) 0 w')
      else delivered p.last_delivery (drain_pool v limit p.schedule w')
