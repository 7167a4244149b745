-- ===== src/Worker/Drain/Limit.antt =====
-- The jobs that a drain with a limit runs, with one thread or with many.
use yt_scrapper.Base.{
  any, not, ⊤, ◌∙◌, ℕ, suc, ◌+◌, ◌≤◌, ◌<◌, Bool, true, false, ◌||◌, ◌==◌, length, Option, some,
  List, [], ◌∷◌, ◌≡◌, refl, inl, inr, Bool-cases, arith, if◌then◌else◌,
}
use yt_scrapper.Floats.{FloatOps}
use yt_scrapper.Worker.Execute.{World}
use yt_scrapper.Worker.Drain.{
  Delivery, Worker, Turn, Shared, Pump, starting, reserving, withdrawing, executing, counting, done,
  crashed, run_pool, pool_of, Drained, returned, raised, unfinished, reaches, run_once,
  drain_serial, drain_pool, collect_pool, delivered, Pass, is_finished, is_crashed, turns_of, drain,
  deliver_webhooks, reap,
}
use yt_scrapper.Worker.Drain.Pool.{
  held-pool_of, uncounted, uncounted-pool_of, jobs_run, run_pool-IsBalanced,
}

-- A drain that is over, by its result or by an exception.
abbrev pub is_over : {fl : FloatOps} → Drained fl → Bool
is_over unfinished = false
is_over _ = true

module _ (fl : FloatOps) (v : Worker) (n : ℕ) where
  -- The count that a drain returns is that of the jobs it has run.
  abbrev pub IsCount : Drained fl → ℕ → Type 0
  IsCount (returned m w) k = m ≡ k
  IsCount _ k = ⊤

  none_uncounted :
      (ps : List Pump)
      → any (λ p. not (is_finished p)) ps ≡ false
      → any is_crashed ps ≡ false
      → uncounted ps ≡ 0
  none_uncounted [] f c = refl
  none_uncounted (starting ∷ ps) f c = cc
  none_uncounted (reserving ∷ ps) f c = cc
  none_uncounted (withdrawing ∷ ps) f c = cc
  none_uncounted (executing j ∷ ps) f c = cc
  none_uncounted (counting ∷ ps) f c = cc
  none_uncounted (done ∷ ps) f c = omega (arith, none_uncounted ps f c)
  none_uncounted (crashed ∷ ps) f c = cc

  collect_pool-IsCount :
      (ps : List Pump) (s : Shared fl) (k : ℕ)
      → s.completed + uncounted ps ≡ k
      → IsCount (collect_pool fl (ps, s)) k
  collect_pool-IsCount ps s k h = elim (Bool-cases (any (λ p. not (is_finished p)) ps)) [
    | inl e ↦ rw e tt
    | inr e ↦ elim (Bool-cases (any is_crashed ps)) [
      | inl f ↦ rw (e, f) tt
      | inr f ↦ rw (e, f) (omega (arith, h, none_uncounted ps e f))
    ]
  ]

  -- The jobs that the pool of a drain runs, and those that its single thread runs.
  abbrev pub pool_runs : List (ℕ × Turn fl) → World fl → ℕ
  pool_runs schedule w =
      jobs_run fl v n schedule (pool_of v.concurrency)
        (record { reserved = 0; completed = 0; world = w })

  drain_pool-IsCount :
      (schedule : List (ℕ × Turn fl)) (w : World fl)
      → IsCount (drain_pool fl v (some n) schedule w) (pool_runs schedule w)
        × (pool_runs schedule w ≤ n)
  unfolding drain_pool
  drain_pool-IsCount schedule w =
      let s : Shared fl = record { reserved = 0; completed = 0; world = w } in
      let ps = pool_of v.concurrency in
      let (ps', s') = run_pool fl v (some n) schedule ps s in
      let (b, e, l) =
        run_pool-IsBalanced fl v n schedule ps s (omega (arith, held-pool_of v.concurrency)) in
      (
        collect_pool-IsCount ps' s' (pool_runs schedule w)
            (omega (arith, e, uncounted-pool_of v.concurrency)),
        omega (arith, l),
      )

  abbrev and_more : Bool → Bool → ℕ → ℕ
  and_more true was_raised rest = suc (if was_raised then 0 else rest)
  and_more false was_raised rest = 0

  abbrev pub serial_runs : List (Turn fl) → ℕ → World fl → ℕ
  serial_runs [] k w = 0
  serial_runs (t ∷ ts) k w =
      let (was_any, w', was_raised) = run_once fl v t w in
      let rest = serial_runs ts (suc k) w' in
      if reaches (some n) k || t.stopping || t.paused then 0 else and_more was_any was_raised rest

  from_zero : (m : ℕ) (r : Drained fl) → IsCount r (0 + m) → IsCount r m
  from_zero m (returned x w) c = omega (arith, c)
  from_zero m (raised w) c = tt
  from_zero m unfinished c = tt

  serial_step :
      (was_any : Bool) (w : World fl) (was_raised : Bool) (k l m : ℕ) (rest : Drained fl)
      → suc k ≤ n
      → IsCount rest (suc k + m) × (suc k + m ≤ n) × (n < suc k + l → is_over rest ≡ true)
      → let r = if was_raised then raised w else (if was_any then rest else returned k w) in
        let a = and_more was_any was_raised m in
        IsCount r (k + a) × (k + a ≤ n) × (n < k + suc l → is_over r ≡ true)
  serial_step true w true k l m rest h i = (tt, omega (arith, h), λ q. refl)
  serial_step false w true k l m rest h i = (tt, omega (arith, h), λ q. refl)
  serial_step false w false k l m rest h i = (omega arith, omega (arith, h), λ q. refl)
  serial_step true w false k l m rest h (c, b, o) =
      (counts rest c, omega (arith, b), λ q. o (omega (arith, q)))
    where
      counts : (rest : Drained fl) → IsCount rest (suc k + m) → IsCount rest (k + suc m)
      counts (returned x w) c = omega (arith, c)
      counts (raised w) c = tt
      counts unfinished c = tt

  drain_serial-IsCount :
      (ts : List (Turn fl)) (k : ℕ) (w : World fl)
      → k ≤ n
      → let r = drain_serial fl v (some n) ts k w in
        let m = serial_runs ts k w in
        IsCount r (k + m) × (k + m ≤ n) × (n < k + length ts → is_over r ≡ true)
  unfolding drain_serial
  drain_serial-IsCount [] k w h = (tt, omega (arith, h), λ q. absurd (omega (arith, h, q)))
  drain_serial-IsCount (t ∷ ts) k w h =
      elim (Bool-cases (reaches (some n) k || t.stopping || t.paused)) [
        | inl e ↦ rw e (omega arith, omega (arith, h), λ q. refl)
        | inr e ↦
            let room : suc k ≤ n = ground arith in
            rw e (
              let (was_any, w', was_raised) = run_once fl v t w in
              serial_step was_any w' was_raised k (length ts) (serial_runs ts (suc k) w')
                (drain_serial fl v (some n) ts (suc k) w') room
                (drain_serial-IsCount ts (suc k) w' room))
      ]

  delivered-IsCount :
      (d : Option Delivery) (r : Drained fl) (k : ℕ)
      → (IsCount r k → IsCount (delivered fl d r) k) × (is_over (delivered fl d r) ≡ is_over r)
  delivered-IsCount d (returned m w) k = (λ h. h, refl)
  delivered-IsCount d (raised w) k = (λ h. h, refl)
  delivered-IsCount d unfinished k = (λ h. h, refl)

  -- The jobs that a drain runs: none if the worker is paused.
  abbrev pub drain_runs : Pass fl → World fl → ℕ
  drain_runs p w =
      let w' = reap fl p.reaped_at (deliver_webhooks fl p.first_delivery w) in
      if p.is_paused
      then 0
      else if v.concurrency == 1
      then serial_runs (turns_of fl p.schedule) 0 w'
      else pool_runs p.schedule w'

  -- A drain with a limit never runs more jobs than the limit, however it ends, whatever its threads
  -- and however they interleave; if it returns, it returns the number of jobs it has run; and with a
  -- single thread one turn more than the limit is enough for it to come to an end.
  pub drain-IsWithin :
      (p : Pass fl) (w : World fl)
      → let r = drain fl v (some n) p w in
        (drain_runs p w ≤ n)
        × IsCount r (drain_runs p w)
        × (v.concurrency ≡ 1 → n < length (turns_of fl p.schedule) → is_over r ≡ true)
  unfolding drain
  drain-IsWithin p w =
      let w' = reap fl p.reaped_at (deliver_webhooks fl p.first_delivery w) in
      let turns = turns_of fl p.schedule in
      let serial = drain_serial-IsCount turns 0 w' (omega arith) in
      let pool = drain_pool-IsCount p.schedule w' in
      elim (Bool-cases p.is_paused) [
        | inl e ↦ rw e (omega arith, refl, λ _ _. refl)
        | inr e ↦ elim (Bool-cases (v.concurrency == 1)) [
          | inl f ↦
              let kept =
                delivered-IsCount p.last_delivery (drain_serial fl v (some n) turns 0 w')
                  (serial_runs turns 0 w') in
              rw (e, f)
                (
                  omega (arith, serial.1),
                  kept.0 (from_zero _ (drain_serial fl v (some n) turns 0 w') serial.0),
                  λ _ q. kept.1 ∙ serial.2 (omega (arith, q)),
                )
          | inr f ↦
              rw (e, f)
                (
                  pool.1,
                  (delivered-IsCount p.last_delivery (drain_pool fl v (some n) p.schedule w')
                        (pool_runs p.schedule w')).0
                      pool.0,
                  λ q. absurd (ground (arith, f, q)),
                )
        ]
      ]
