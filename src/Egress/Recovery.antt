-- ===== src/Egress/Recovery.antt =====
-- Quarantine: how long it refuses, what ends the streak, and where the arithmetic gives out.
use yt_scrapper.Base.{
  ℕ, ◌+◌, ◌-◌, ◌^◌, ◌≤◌, ◌<◌, ◌≡◌, Bool, true, false, List, [], ◌∷◌, arith, refl, inl, inr, some,
  Option-cases, All,
}
use yt_scrapper.Floats.{FloatOps, FloatLaws, min, lt}
use yt_scrapper.Egress.{
  Verdict, ok, throttled, blocked, neutral, State, Controller, quarantine_seconds, acquire_lane,
  release_lane, Event, asks, ends, reports, step, run, recovery_successes_needed,
}

module _ (fl : FloatOps) where
  open fl use {Float, leb, decimal, of_int, add, mul}

  quarantine_seconds-some :
      (streak : ℕ) (power : Float)
      → of_int (2 ^ streak) ≡ some power
      → quarantine_seconds fl (streak + 1)
        ≡ some (min fl (decimal 3600 0) (mul (decimal 300 0) power))
  unfolding quarantine_seconds
  quarantine_seconds-some streak power e =
      let d : streak + 1 - 1 ≡ streak = omega arith in rw (d, e, quarantine_seconds)

  -- A release as blocked, of a lane whose next streak is one that a float can double to, puts the
  -- window back to 1.0, and every request is refused, and changes nothing, until the quarantine of
  -- 300 seconds doubled for each earlier block in the streak, at most 3600, has run out.
  release_lane-refuses :
      (c : Controller fl) (s : State fl) (now reading later : Float) (power : Float)
      → of_int (2 ^ s.quarantine_streak) ≡ some power
      → lt fl later (add reading (min fl (decimal 3600 0) (mul (decimal 300 0) power))) ≡ true
      → let t = (release_lane fl c s blocked now reading).0 in
        (t.window ≡ decimal 1 0)
        × ((release_lane fl c s blocked now reading).1 ≡ false)
        × (acquire_lane fl t later ≡ (false, t))
  unfolding release_lane acquire_lane
  release_lane-refuses c s now reading later power e q =
      rw (quarantine_seconds-some s.quarantine_streak power e) (refl, refl, rw q)

  -- Up to 1024 blocks in a row the quarantine is computed: no exception leaves the release.
  release_lane-not_raised :
      (laws : FloatLaws fl) (c : Controller fl) (s : State fl) (v : Verdict) (now reading : Float)
      → s.quarantine_streak < 1024
      → (release_lane fl c s v now reading).1 ≡ false
  unfolding release_lane
  release_lane-not_raised laws c s ok now reading h = refl
  release_lane-not_raised laws c s throttled now reading h = refl
  release_lane-not_raised laws c s neutral now reading h = refl
  release_lane-not_raised laws c s blocked now reading h =
      let (power, e) = laws.of_int_power s.quarantine_streak h in
      rw (quarantine_seconds-some s.quarantine_streak power e)

  -- The verdicts of a list of events.
  abbrev not_blocked : Verdict → Bool
  not_blocked blocked = false
  not_blocked _ = true

  abbrev is_calm : Event fl → Bool
  is_calm (asks _) = true
  is_calm (ends v _ _) = not_blocked v
  is_calm (reports v _ _) = not_blocked v

  abbrev one_if_ok : Verdict → ℕ
  one_if_ok ok = 1
  one_if_ok _ = 0

  abbrev successes_of : Event fl → ℕ
  successes_of (asks _) = 0
  successes_of (ends v _ _) = one_if_ok v
  successes_of (reports v _ _) = one_if_ok v

  abbrev pub successes : List (Event fl) → ℕ
  successes [] = 0
  successes (e ∷ es) = successes_of e + successes es

  -- One step without a block counts its success, and clears the streak if that is the twentieth.
  step-successes :
      (c : Controller fl) (s : State fl) (e : Event fl)
      → is_calm e ≡ true
      → (20 ≤ s.recovery_successes → s.quarantine_streak ≡ 0)
      → ((step fl c s e).recovery_successes ≡ s.recovery_successes + successes_of e)
        × (20 ≤ (step fl c s e).recovery_successes → (step fl c s e).quarantine_streak ≡ 0)
  unfolding step
  step-successes c s (asks now) h k = ground arith
  step-successes c s (ends ok now reading) h k = ground arith
  step-successes c s (ends throttled now reading) h k = ground arith
  step-successes c s (ends neutral now reading) h k = ground arith
  step-successes c s (ends blocked now reading) h k = cc
  step-successes c s (reports ok now reading) h k = ground arith
  step-successes c s (reports throttled now reading) h k = ground arith
  step-successes c s (reports neutral now reading) h k = ground arith
  step-successes c s (reports blocked now reading) h k = cc

  run-successes :
      (c : Controller fl) (s : State fl) (es : List (Event fl))
      → All (λ e. is_calm e ≡ true) es
      → (20 ≤ s.recovery_successes → s.quarantine_streak ≡ 0)
      → ((run fl c s es).recovery_successes ≡ s.recovery_successes + successes es)
        × (20 ≤ (run fl c s es).recovery_successes → (run fl c s es).quarantine_streak ≡ 0)
  unfolding run
  run-successes c s [] h k = (omega arith, k)
  run-successes c s (e ∷ es) h k =
      let t = step-successes c s e h.0 k in
      let r = run-successes c (step fl c s e) es h.1 t.1 in (omega (arith, t.0, r.0), r.1)

  step_blocked :
      (c : Controller fl) (s : State fl) (now reading : Float)
      → (step fl c s (reports blocked now reading)).recovery_successes ≡ 0
  unfolding step
  step_blocked c s now reading =
      elim (Option-cases (quarantine_seconds fl (s.quarantine_streak + 1))) [
        | inl e ↦ rw (e, step)
        | inr (b, e) ↦ rw (e, step)
      ]

  -- Once twenty successes have come in since the last block, the streak is 0, and it does not
  -- matter what throttled or neutral verdicts came in between them.
  run-clears_streak :
      (c : Controller fl) (s : State fl) (now reading : Float) (es : List (Event fl))
      → All (λ e. is_calm e ≡ true) es
      → recovery_successes_needed ≤ successes es
      → (run fl c (step fl c s (reports blocked now reading)) es).quarantine_streak ≡ 0
  run-clears_streak c s now reading es h n =
      let t = step fl c s (reports blocked now reading) in
      let z = step_blocked c s now reading in
      let r = run-successes c t es h (λ k. absurd (omega (arith, z))) in r.1 (omega (arith, z, r.0))
