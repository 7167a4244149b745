-- ===== src/Worker/Serve.antt =====
-- `Worker.serve`: one drain after another until the stop event is set.
pub mod Ending
use yt_scrapper.Base.{ℕ, zero, suc, ◌+◌, Bool, true, false, none, List, [], ◌∷◌, if◌then◌else◌}
use yt_scrapper.Floats.{FloatOps}
use yt_scrapper.Worker.Execute.{World}
use yt_scrapper.Worker.Drain.{Worker, Pass, Drained, returned, raised, unfinished, drain}

module _ (fl : FloatOps) where
  -- One time round the loop: whether the event is set at its top, what the drain reads, and whether
  -- the event is set while `_wait` waits.
  pub record Cycle : Type 0 where
    pub is_set : Bool
    pub pass : Pass fl
    pub is_set_waiting : Bool

  -- The total that is returned, beside the number of drains; or not yet, when the cycles have run
  -- out.
  pub data Served : Type 0 where
    stopped : ℕ → ℕ → World fl → Served
    serving : Served

  -- What follows a drain that completed some number of jobs. A drain that failed completed none.
  abbrev pub after_drain : ℕ → Bool → ℕ → ℕ → World fl → Served → Served
  after_drain zero true total drains w rest = stopped total drains w
  after_drain zero false total drains w rest = rest
  after_drain (suc completed) is_set_waiting total drains w rest = rest

  -- Of a drain, the jobs that it adds to the total, and the world that it leaves.
  abbrev completed_by : Drained fl → World fl → ℕ × World fl
  completed_by (returned completed w') w = (completed, w')
  completed_by (raised w') w = (0, w')
  completed_by unfinished w = (0, w)

  abbrev is_unfinished : Drained fl → Bool
  is_unfinished unfinished = true
  is_unfinished _ = false

  unfoldable pub serve : Worker → List Cycle → ℕ → ℕ → World fl → Served
  serve v [] total drains w = serving
  serve v (c ∷ cycles) total drains w =
      let drained = drain fl v none c.pass w in
      let (completed, w') = completed_by drained w in
      let rest = serve v cycles (total + completed) (suc drains) w' in
      if c.is_set
      then stopped total drains w
      else if is_unfinished drained
      then serving
      else after_drain completed c.is_set_waiting (total + completed) (suc drains) w' rest
