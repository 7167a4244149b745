-- ===== src/Worker/Serve/Ending.antt =====
-- When serving ends.
use yt_scrapper.Base.{
  ℕ, zero, suc, ◌+◌, Bool, true, false, ◌||◌, any, none, List, [], ◌∷◌, All, ◌≡◌, refl, inl, inr,
  Bool-cases, arith,
}
use yt_scrapper.Floats.{FloatOps}
use yt_scrapper.Worker.Execute.{World}
use yt_scrapper.Worker.Drain.{Worker, drain}
use yt_scrapper.Worker.Serve.{
  Cycle, Served, serving, after_drain, completed_by, is_unfinished, serve,
}

module _ (fl : FloatOps) (v : Worker) where
  abbrev pub is_stopped : Served fl → Bool
  is_stopped serving = false
  is_stopped _ = true

  -- The event was set at some time.
  abbrev is_ever_set : List (Cycle fl) → Bool
  is_ever_set = any (λ c. c.is_set || c.is_set_waiting)

  after_drain-is_stopped :
      (completed : ℕ) (b : Bool) (total drains : ℕ) (w : World fl) (rest : Served fl) (later : Bool)
      → (is_stopped rest ≡ true → later ≡ true)
      → is_stopped (after_drain fl completed b total drains w rest) ≡ true
      → (b || later) ≡ true
  after_drain-is_stopped zero true total drains w rest later h q = refl
  after_drain-is_stopped zero false total drains w rest later h q = h q
  after_drain-is_stopped (suc n) b total drains w rest later h q = ground (arith, h q)

  after_drain-stopped :
      (completed : ℕ) (b : Bool) (total drains : ℕ) (w : World fl) (rest : Served fl)
      → is_stopped rest ≡ true
      → is_stopped (after_drain fl completed b total drains w rest) ≡ true
  after_drain-stopped zero true total drains w rest h = refl
  after_drain-stopped zero false total drains w rest h = h
  after_drain-stopped (suc n) b total drains w rest h = h

  -- Serving ends only when the stop event has been set: no drain ends it, whatever it raises.
  serve-is_ever_set :
      (cycles : List (Cycle fl)) (total drains : ℕ) (w : World fl)
      → is_stopped (serve fl v cycles total drains w) ≡ true
      → is_ever_set cycles ≡ true
  unfolding serve
  serve-is_ever_set [] total drains w q = q
  serve-is_ever_set (c ∷ cycles) total drains w q = elim (Bool-cases c.is_set) [
    | inl e ↦ rw e
    | inr e ↦ elim (Bool-cases (is_unfinished fl (drain fl v none c.pass w))) [
      | inl u ↦ absurd (cc (rw (e, u) at q))
      | inr u ↦
          let (completed, w') = completed_by fl (drain fl v none c.pass w) w in
          rw e (
            after_drain-is_stopped completed c.is_set_waiting (total + completed) (suc drains) w'
              (serve fl v cycles (total + completed) (suc drains) w') (is_ever_set cycles)
              (serve-is_ever_set cycles (total + completed) (suc drains) w') (rw (e, u) at q))
    ]
  ]

  -- Once the event is set at the top of a cycle serving ends there at the latest, if every drain
  -- before it comes to an end.
  serve-is_stopped :
      (cycles : List (Cycle fl)) (total drains : ℕ) (w : World fl)
      → All (λ c. (u : World fl) → is_unfinished fl (drain fl v none c.pass u) ≡ false) cycles
      → any (λ c. c.is_set) cycles ≡ true
      → is_stopped (serve fl v cycles total drains w) ≡ true
  unfolding serve
  serve-is_stopped [] total drains w h q = q
  serve-is_stopped (c ∷ cycles) total drains w h q = elim (Bool-cases c.is_set) [
    | inl e ↦ rw e
    | inr e ↦
        let (completed, w') = completed_by fl (drain fl v none c.pass w) w in
        rw (e, h.0 w)
          (after_drain-stopped completed c.is_set_waiting (total + completed) (suc drains) w'
            (serve fl v cycles (total + completed) (suc drains) w')
            (serve-is_stopped cycles (total + completed) (suc drains) w' h.1 (rw e at q)))
  ]
