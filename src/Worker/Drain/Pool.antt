-- ===== src/Worker/Drain/Pool.antt =====
-- The reservations and the completions of a pool, and the jobs that its threads run.
use yt_scrapper.Base.{
  ◌∙◌, ℕ, zero, suc, ◌+◌, ◌≤◌, Bool, true, false, Option, none, some, List, [], ◌∷◌, ◌≡◌, refl,
  arith,
}
use yt_scrapper.Floats.{FloatOps}
use yt_scrapper.Models.{Job}
use yt_scrapper.Worker.Execute.{World}
use yt_scrapper.Worker.Drain.{
  Worker, Turn, Shared, Pump, starting, reserving, withdrawing, executing, counting, done, crashed,
  pump, pump_at, run_pool, pool_of, pump_claimed, pump_executed, claims, executes,
}

-- Whether a thread holds a reservation that is not yet counted as completed.
abbrev weight : Pump → ℕ
weight starting = 0
weight done = 0
weight _ = 1

abbrev pub held : List Pump → ℕ
held [] = 0
held (p ∷ ps) = weight p + held ps

pub held-pool_of : (k : ℕ) → held (pool_of k) ≡ 0
held-pool_of zero = refl
held-pool_of (suc k) = omega (arith, held-pool_of k)

-- Whether a thread has run a job that is not counted as completed: it is about to be, or an
-- exception left it.
abbrev ran : Pump → ℕ
ran counting = 1
ran crashed = 1
ran _ = 0

abbrev pub uncounted : List Pump → ℕ
uncounted [] = 0
uncounted (p ∷ ps) = ran p + uncounted ps

pub uncounted-pool_of : (k : ℕ) → uncounted (pool_of k) ≡ 0
uncounted-pool_of zero = refl
uncounted-pool_of (suc k) = omega (arith, uncounted-pool_of k)

uncounted-le-held : (ps : List Pump) → uncounted ps ≤ held ps
uncounted-le-held [] = omega arith
uncounted-le-held (p ∷ ps) = omega (arith, uncounted-le-held ps, ran-le-weight p)
  where
    ran-le-weight : (p : Pump) → ran p ≤ weight p
    ran-le-weight starting = omega arith
    ran-le-weight reserving = omega arith
    ran-le-weight withdrawing = omega arith
    ran-le-weight (executing j) = omega arith
    ran-le-weight counting = omega arith
    ran-le-weight done = omega arith
    ran-le-weight crashed = omega arith

-- An action that runs a job.
abbrev runs : Pump → ℕ
runs (executing j) = 1
runs _ = 0

abbrev runs_at : ℕ → List Pump → ℕ
runs_at i [] = 0
runs_at zero (p ∷ ps) = runs p
runs_at (suc i) (p ∷ ps) = runs_at i ps

module _ (fl : FloatOps) (v : Worker) (n : ℕ) where
  -- Each reservation is held by a thread or was completed, and there are no more than the limit.
  abbrev pub IsBalanced : ℕ → Shared fl → Type 0
  IsBalanced h s = (s.reserved ≡ s.completed + h) × (s.reserved ≤ n)

  pump_claimed-IsBalanced :
      (h : ℕ) (s : Shared fl) (c : Option Job × World fl)
      → IsBalanced (h + 1) s
      → let (p, s') = pump_claimed fl s c in IsBalanced (h + weight p) s'
  pump_claimed-IsBalanced h s (none, w) b = b
  pump_claimed-IsBalanced h s (some j, w) b = b

  pump_executed-IsBalanced :
      (h : ℕ) (s : Shared fl) (c : World fl × Bool)
      → IsBalanced (h + 1) s
      → let (p, s') = pump_executed fl s c in IsBalanced (h + weight p) s'
  pump_executed-IsBalanced h s (w, true) b = b
  pump_executed-IsBalanced h s (w, false) b = b

  pump-IsBalanced :
      (t : Turn fl) (h : ℕ) (p : Pump) (s : Shared fl)
      → IsBalanced (h + weight p) s
      → let (p', s') = pump fl v (some n) t p s in IsBalanced (h + weight p') s'
  unfolding pump
  pump-IsBalanced t h starting s b = ground arith
  pump-IsBalanced t h reserving s b = pump_claimed-IsBalanced h s (claims fl v t s.world) b
  pump-IsBalanced t h withdrawing s b = omega (arith, b)
  pump-IsBalanced t h (executing j) s b = pump_executed-IsBalanced h s (executes fl v t j s.world) b
  pump-IsBalanced t h counting s b = omega (arith, b)
  pump-IsBalanced t h done s b = b
  pump-IsBalanced t h crashed s b = b

  -- One action in the pool, beside threads that hold `h`.
  pump_at-IsBalanced :
      (t : Turn fl) (i h : ℕ) (ps : List Pump) (s : Shared fl)
      → IsBalanced (h + held ps) s
      → let (ps', s') = pump_at fl v (some n) t i ps s in IsBalanced (h + held ps') s'
  unfolding pump_at
  pump_at-IsBalanced t i h [] s b = b
  pump_at-IsBalanced t zero h (p ∷ ps) s b =
      let r = pump-IsBalanced t (h + held ps) p s (omega (arith, b)) in omega (arith, r)
  pump_at-IsBalanced t (suc i) h (p ∷ ps) s b =
      let r = pump_at-IsBalanced t i (h + weight p) ps s (omega (arith, b)) in omega (arith, r)

  -- The jobs that are run over a schedule.
  abbrev pub jobs_run : List (ℕ × Turn fl) → List Pump → Shared fl → ℕ
  jobs_run [] ps s = 0
  jobs_run ((i, t) ∷ schedule) ps s =
      let (ps', s') = pump_at fl v (some n) t i ps s in runs_at i ps + jobs_run schedule ps' s'

  pump_claimed-ran :
      (s : Shared fl) (c : Option Job × World fl)
      → let (p, s') = pump_claimed fl s c in s'.completed + ran p ≡ s.completed
  pump_claimed-ran s (none, w) = omega arith
  pump_claimed-ran s (some j, w) = omega arith

  pump_executed-ran :
      (s : Shared fl) (c : World fl × Bool)
      → let (p, s') = pump_executed fl s c in s'.completed + ran p ≡ s.completed + 1
  pump_executed-ran s (w, true) = refl
  pump_executed-ran s (w, false) = refl

  pump-ran :
      (t : Turn fl) (p : Pump) (s : Shared fl)
      → let (p', s') = pump fl v (some n) t p s in
        s'.completed + ran p' ≡ s.completed + ran p + runs p
  unfolding pump
  pump-ran t starting s = ground arith
  pump-ran t reserving s = pump_claimed-ran s (claims fl v t s.world) ∙ omega arith
  pump-ran t withdrawing s = omega arith
  pump-ran t (executing j) s = pump_executed-ran s (executes fl v t j s.world) ∙ omega arith
  pump-ran t counting s = omega arith
  pump-ran t done s = omega arith
  pump-ran t crashed s = omega arith

  pump_at-ran :
      (t : Turn fl) (i : ℕ) (ps : List Pump) (s : Shared fl)
      → let (ps', s') = pump_at fl v (some n) t i ps s in
        s'.completed + uncounted ps' ≡ s.completed + uncounted ps + runs_at i ps
  unfolding pump_at
  pump_at-ran t i [] s = omega arith
  pump_at-ran t zero (p ∷ ps) s = omega (arith, pump-ran t p s)
  pump_at-ran t (suc i) (p ∷ ps) s = omega (arith, pump_at-ran t i ps s)

  -- Every job that is run is counted as completed, or its thread is about to count it, or an
  -- exception left that thread.
  run_pool-ran :
      (schedule : List (ℕ × Turn fl)) (ps : List Pump) (s : Shared fl)
      → let (ps', s') = run_pool fl v (some n) schedule ps s in
        s'.completed + uncounted ps' ≡ s.completed + uncounted ps + jobs_run schedule ps s
  unfolding run_pool
  run_pool-ran [] ps s = omega arith
  run_pool-ran ((i, t) ∷ schedule) ps s =
      let (ps', s') = pump_at fl v (some n) t i ps s in
      omega (arith, run_pool-ran schedule ps' s', pump_at-ran t i ps s)

  run_pool-Reserved :
      (schedule : List (ℕ × Turn fl)) (ps : List Pump) (s : Shared fl)
      → IsBalanced (held ps) s
      → let (ps', s') = run_pool fl v (some n) schedule ps s in IsBalanced (held ps') s'
  unfolding run_pool
  run_pool-Reserved [] ps s b = b
  run_pool-Reserved ((i, t) ∷ schedule) ps s b =
      let (ps', s') = pump_at fl v (some n) t i ps s in
      run_pool-Reserved schedule ps' s'
        (let r = pump_at-IsBalanced t i 0 ps s (omega (arith, b)) in omega (arith, r))

  -- However the threads of a pool interleave, each reservation stays one that a thread holds or
  -- that was completed, if that was so at the start, and they stay within the limit; and each job
  -- that is run meanwhile is counted as completed, or its thread is about to count it or was left by
  -- an exception. So the jobs that were completed before and those that are run meanwhile are
  -- together never more than the limit.
  pub run_pool-IsBalanced :
      (schedule : List (ℕ × Turn fl)) (ps : List Pump) (s : Shared fl)
      → IsBalanced (held ps) s
      → let (ps', s') = run_pool fl v (some n) schedule ps s in
        IsBalanced (held ps') s'
        × (s'.completed + uncounted ps' ≡ s.completed + uncounted ps + jobs_run schedule ps s)
        × (s.completed + jobs_run schedule ps s ≤ n)
  run_pool-IsBalanced schedule ps s b =
      let (ps', s') = run_pool fl v (some n) schedule ps s in
      let b' = run_pool-Reserved schedule ps s b in
      let e = run_pool-ran schedule ps s in (b', e, omega (arith, b', e, uncounted-le-held ps'))
