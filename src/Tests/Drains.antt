-- ===== src/Tests/Drains.antt =====
-- Drains at concrete inputs: one thread and two, with a limit of one job.
use yt_scrapper.Base.{
  ℕ, ◌+◌, ◌≤◌, ◌<◌, ◌≡◌, refl, true, false, none, some, List, [], ◌∷◌, arith, length,
}
use yt_scrapper.Worker.Drain.{
  Worker, Turn, Shared, Pass, starting, reserving, is_finished, run_pool, drain, turns_of,
}
use yt_scrapper.Worker.Drain.Pool.{IsBalanced, held, uncounted, jobs_run, run_pool-IsBalanced}
use yt_scrapper.Worker.Drain.Limit.{IsCount, is_over, drain_runs, drain-IsWithin}
use yt_scrapper.Worker.Drain.Stopping.{pump_on, pump_on-finished}
use yt_scrapper.Worker.Serve.{Cycle, serve}
use yt_scrapper.Worker.Serve.Ending.{is_stopped}
use yt_scrapper.Tests.Samples.{fixed, registry}
use yt_scrapper.Tests.Routes.{world, circumstances}

abbrev worker : Worker
worker = record { registry = registry; name = "w"; egress = "direct"; concurrency = 1; lease = 900 }

abbrev turn : Turn fixed
turn = record {
  stopping = false;
  paused = false;
  locked = λ k. false;
  claimed_at = 20;
  circumstances = circumstances;
}

abbrev stop : Turn fixed
stop = record turn { stopping = true }

abbrev start : Shared fixed
start = record { reserved = 0; completed = 0; world = world }

-- Two threads in turn: the second finds the one reservation taken.
abbrev schedule : List (ℕ × Turn fixed)
schedule = (0, turn) ∷ (1, turn) ∷ (0, turn) ∷ (0, turn) ∷ (0, turn) ∷ (0, turn) ∷ []

run_pool-IsBalanced_example :
    let (ps, s) = run_pool fixed worker (some 1) schedule (starting ∷ starting ∷ []) start in
    IsBalanced fixed worker 1 (held ps) s
    × (s.completed + uncounted ps
        ≡ 0 + 0 + jobs_run fixed worker 1 schedule (starting ∷ starting ∷ []) start)
    × (0 + jobs_run fixed worker 1 schedule (starting ∷ starting ∷ []) start ≤ 1)
run_pool-IsBalanced_example =
    run_pool-IsBalanced fixed worker 1 schedule (starting ∷ starting ∷ []) start (omega arith)

abbrev pass : Pass fixed
pass = record {
  first_delivery = none;
  reaped_at = 20;
  is_paused = false;
  schedule = (0, turn) ∷ (0, turn) ∷ [];
  last_delivery = none;
}

drain-IsWithin_example :
    let r = drain fixed worker (some 1) pass world in
    (drain_runs fixed worker 1 pass world ≤ 1)
    × IsCount fixed worker 1 r (drain_runs fixed worker 1 pass world)
    × (worker.concurrency ≡ 1 → 1 < length (turns_of fixed pass.schedule) → is_over r ≡ true)
drain-IsWithin_example = drain-IsWithin fixed worker 1 pass world

abbrev four_actions : List (Turn fixed × Shared fixed)
four_actions = (stop, start) ∷ (stop, start) ∷ (stop, start) ∷ (stop, start) ∷ []

pump_on-finished_example : is_finished (pump_on fixed worker none four_actions reserving) ≡ true
pump_on-finished_example =
    pump_on-finished fixed worker none four_actions reserving (refl, (refl, (refl, (refl, tt))))
      (omega arith)

-- An idle cycle, and one at whose top the event is set.
abbrev cycles : List (Cycle fixed)
cycles =
    record { is_set = false; pass = record pass { is_paused = true }; is_set_waiting = false }
    ∷ record { is_set = true; pass = record pass { is_paused = true }; is_set_waiting = false }
    ∷ []

served : is_stopped fixed worker (serve fixed worker cycles 0 0 world) ≡ true
unfolding serve drain
served = refl
