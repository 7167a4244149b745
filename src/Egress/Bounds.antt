-- ===== src/Egress/Bounds.antt =====
-- The bounds that every lane keeps, whatever happens to it.
use Prim.Native.Nat
use yt_scrapper.Base.{◌+◌, ◌-◌, ◌≤◌, ◌≡◌, true, List, [], ◌∷◌, arith, inl, inr, Option-cases}
use yt_scrapper.Floats.{FloatOps, FloatLaws}
use yt_scrapper.Floats.Order.{min-le_left, max-ge_left, le-min, max-le}
use yt_scrapper.Egress.{
  Verdict, ok, throttled, blocked, neutral, State, Controller, new_lane, apply, quarantine_seconds,
  acquire_lane, release_lane, Event, asks, ends, reports, step, run,
}

-- What the constructor's two numbers are expected to satisfy.
pub record IsConfigured (fl : FloatOps) (c : Controller fl) : Type 0 where
  pub ceiling_admits : fl.leb (fl.decimal 1 0) c.window_ceiling ≡ true
  pub interval_low : fl.leb (fl.decimal 0 0) c.minimum_interval_seconds ≡ true
  pub interval_high : fl.leb c.minimum_interval_seconds (fl.decimal 60 0) ≡ true

pub record InBounds (fl : FloatOps) (c : Controller fl) (s : State fl) : Type 0 where
  pub window_low : fl.leb (fl.decimal 1 0) s.window ≡ true
  pub window_high : fl.leb s.window c.window_ceiling ≡ true
  pub interval_low : fl.leb (fl.decimal 0 0) s.minimum_interval ≡ true
  pub interval_high : fl.leb s.minimum_interval (fl.decimal 60 0) ≡ true
  pub slots : s.in_flight ≤ Nat.max 1 (fl.truncate c.window_ceiling)

module _ (fl : FloatOps) (laws : FloatLaws fl) (c : Controller fl) (conf : IsConfigured fl c) where
  open fl use {Float, leb, decimal, add, mul, div, truncate}

  pub new_lane-InBounds : InBounds fl c (new_lane fl c)
  new_lane-InBounds = record {
    window_low = laws.le_refl (decimal 1 0);
    window_high = conf.ceiling_admits;
    interval_low = conf.interval_low;
    interval_high = conf.interval_high;
    slots = omega arith;
  }

  apply_ok-InBounds :
      (s : State fl) (now reading : Float)
      → InBounds fl c s
      → InBounds fl c (apply fl c s ok now reading).0
  unfolding apply
  apply_ok-InBounds s now reading h = record {
    window_low =
        le-min fl laws _ _ _ conf.ceiling_admits
          (laws.le_trans _ _ _ h.window_low (laws.le_add_reciprocal s.window h.window_low));
    window_high = min-le_left fl laws _ _;
    interval_low = laws.le_trans _ _ _ conf.interval_low (max-ge_left fl laws _ _);
    interval_high =
        max-le fl laws _ _ _ conf.interval_high
          (laws.le_trans _ _ _ (laws.shrink_le s.minimum_interval h.interval_low) h.interval_high);
    slots = h.slots;
  }

  apply_throttled-InBounds :
      (s : State fl) (now reading : Float)
      → InBounds fl c s
      → InBounds fl c (apply fl c s throttled now reading).0
  unfolding apply
  apply_throttled-InBounds s now reading h = record {
    window_low = max-ge_left fl laws _ _;
    window_high =
        max-le fl laws _ _ _ conf.ceiling_admits
          (laws.le_trans _ _ _ (laws.half_le s.window h.window_low) h.window_high);
    interval_low =
        le-min fl laws _ _ _ (laws.decimal_mono 0 60 (omega arith))
          (laws.le_trans _ _ _ (laws.decimal_mono 0 1 (omega arith)) (max-ge_left fl laws _ _));
    interval_high = min-le_left fl laws _ _;
    slots = h.slots;
  }

  apply_blocked-InBounds :
      (s : State fl) (now reading : Float)
      → InBounds fl c s
      → InBounds fl c (apply fl c s blocked now reading).0
  unfolding apply
  apply_blocked-InBounds s now reading h =
      elim (Option-cases (quarantine_seconds fl (s.quarantine_streak + 1))) [
        | inl e ↦ rw e (record {
          window_low = laws.le_refl _;
          window_high = conf.ceiling_admits;
          interval_low = h.interval_low;
          interval_high = h.interval_high;
          slots = h.slots;
        })
        | inr (b, e) ↦ rw e (record {
          window_low = laws.le_refl _;
          window_high = conf.ceiling_admits;
          interval_low = h.interval_low;
          interval_high = h.interval_high;
          slots = h.slots;
        })
      ]

  apply-InBounds :
      (s : State fl) (v : Verdict) (now reading : Float)
      → InBounds fl c s
      → InBounds fl c (apply fl c s v now reading).0
  apply-InBounds s ok now reading h = apply_ok-InBounds s now reading h
  apply-InBounds s throttled now reading h = apply_throttled-InBounds s now reading h
  apply-InBounds s blocked now reading h = apply_blocked-InBounds s now reading h
  apply-InBounds s neutral now reading h = unfold apply in h

  acquire_lane-slots :
      (s : State fl) (now : Float)
      → s.in_flight ≤ Nat.max 1 (truncate c.window_ceiling)
      → truncate s.window ≤ truncate c.window_ceiling
      → (acquire_lane fl s now).1.in_flight ≤ Nat.max 1 (truncate c.window_ceiling)
  unfolding acquire_lane
  acquire_lane-slots s now h k = ground arith

  acquire_lane-keeps :
      (s : State fl) (now : Float)
      → let t = (acquire_lane fl s now).1 in
        (t.window ≡ s.window) × (t.minimum_interval ≡ s.minimum_interval)
  unfolding acquire_lane
  acquire_lane-keeps s now = ground arith

  acquire_lane-InBounds :
      (s : State fl) (now : Float) → InBounds fl c s → InBounds fl c (acquire_lane fl s now).1
  acquire_lane-InBounds s now h =
      let k = acquire_lane-keeps s now in
      record {
        window_low = rw k.0 h.window_low;
        window_high = rw k.0 h.window_high;
        interval_low = rw k.1 h.interval_low;
        interval_high = rw k.1 h.interval_high;
        slots = acquire_lane-slots s now h.slots (laws.truncate_mono _ _ h.window_high);
      }

  release_lane-InBounds :
      (s : State fl) (v : Verdict) (now reading : Float)
      → InBounds fl c s
      → InBounds fl c (release_lane fl c s v now reading).0
  unfolding release_lane
  release_lane-InBounds s v now reading h =
      apply-InBounds (record s { in_flight = s.in_flight - 1 }) v now reading
        (record {
          window_low = h.window_low;
          window_high = h.window_high;
          interval_low = h.interval_low;
          interval_high = h.interval_high;
          slots = omega (arith, h.slots);
        })

  step-InBounds : (s : State fl) (e : Event fl) → InBounds fl c s → InBounds fl c (step fl c s e)
  unfolding step
  step-InBounds s (asks now) h = acquire_lane-InBounds s now h
  step-InBounds s (ends v now reading) h = release_lane-InBounds s v now reading h
  step-InBounds s (reports v now reading) h = apply-InBounds s v now reading h

  -- For a controller whose ceiling is 1.0 at the least and whose minimum interval is between 0.0 and
  -- 60.0 seconds: from any state within the bounds, after any requests, releases and verdicts, the
  -- window is between 1.0 and the ceiling, the interval between 0.0 and 60.0 seconds, and no more
  -- requests are under way than the ceiling admits.
  pub run-InBounds :
      (s : State fl) (es : List (Event fl)) → InBounds fl c s → InBounds fl c (run fl c s es)
  unfolding run
  run-InBounds s [] h = h
  run-InBounds s (e ∷ es) h = run-InBounds (step fl c s e) es (step-InBounds s e h)
