-- ===== src/Worker/Drain/Stopping.antt =====
-- What a thread of the pool does once the worker is to stop.
use yt_scrapper.Base.{
  ℕ, ◌-◌, ◌≤◌, Bool, true, false, length, Option, none, some, List, [], ◌∷◌, ◌≡◌, All, arith,
}
use yt_scrapper.Floats.{FloatOps}
use yt_scrapper.Models.{Job}
use yt_scrapper.Worker.Execute.{World}
use yt_scrapper.Worker.Drain.{
  Worker, Turn, Shared, Pump, starting, reserving, withdrawing, executing, counting, done, crashed,
  is_finished, pump, pump_claimed, pump_executed, claims, executes,
}

-- How many more actions a thread takes at most.
abbrev remaining : Pump → ℕ
remaining done = 0
remaining crashed = 0
remaining starting = 1
remaining withdrawing = 1
remaining counting = 2
remaining (executing _) = 3
remaining reserving = 4

module _ (fl : FloatOps) (v : Worker) (limit : Option ℕ) where
  pump_claimed-remaining :
      (s : Shared fl) (c : Option Job × World fl) → remaining (pump_claimed fl s c).0 ≤ 3
  pump_claimed-remaining s (none, w) = omega arith
  pump_claimed-remaining s (some j, w) = omega arith

  pump_executed-remaining :
      (s : Shared fl) (c : World fl × Bool) → remaining (pump_executed fl s c).0 ≤ 2
  pump_executed-remaining s (w, true) = omega arith
  pump_executed-remaining s (w, false) = omega arith

  pump-remaining :
      (t : Turn fl) (p : Pump) (s : Shared fl)
      → t.stopping ≡ true
      → remaining (pump fl v limit t p s).0 ≤ remaining p - 1
  unfolding pump
  pump-remaining t starting s h = rw h (omega arith)
  pump-remaining t reserving s h = omega (arith, pump_claimed-remaining s (claims fl v t s.world))
  pump-remaining t withdrawing s h = omega arith
  pump-remaining t (executing j) s h =
      omega (arith, pump_executed-remaining s (executes fl v t j s.world))
  pump-remaining t counting s h = omega arith
  pump-remaining t done s h = omega arith
  pump-remaining t crashed s h = omega arith

  -- The actions of one thread, each on what the others have left of the shared state by then.
  abbrev pub pump_on : List (Turn fl × Shared fl) → Pump → Pump
  pump_on [] p = p
  pump_on ((t, s) ∷ rest) p = pump_on rest (pump fl v limit t p s).0

  pump_on-remaining :
      (acts : List (Turn fl × Shared fl)) (p : Pump)
      → All (λ a. a.0.stopping ≡ true) acts
      → remaining (pump_on acts p) ≤ remaining p - length acts
  pump_on-remaining [] p h = omega arith
  pump_on-remaining ((t, s) ∷ acts) p h =
      omega (arith, pump-remaining t p s h.0, pump_on-remaining acts (pump fl v limit t p s).0 h.1)

  finished_of_remaining : (p : Pump) → remaining p ≤ 0 → is_finished p ≡ true
  finished_of_remaining p h = ground arith

  remaining_le : (p : Pump) → remaining p ≤ 4
  remaining_le p = ground arith

  -- Once the worker is asked to stop, four actions finish a thread wherever it stood, whatever the
  -- other threads do to the shared state between them. The test of the stop event and the
  -- reservation that follows it count as one action.
  pub pump_on-finished :
      (acts : List (Turn fl × Shared fl)) (p : Pump)
      → All (λ a. a.0.stopping ≡ true) acts
      → 4 ≤ length acts
      → is_finished (pump_on acts p) ≡ true
  pump_on-finished acts p h n =
      finished_of_remaining (pump_on acts p)
        (omega (arith, pump_on-remaining acts p h, remaining_le p, n))
