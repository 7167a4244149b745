-- ===== src/Tests/Routes.antt =====
-- The rate controller and the execution of one job at concrete inputs.
use yt_scrapper.Base.{◌≡◌, refl, true, false, some, List, [], ◌∷◌}
use yt_scrapper.Egress.{
  youtube, ok, throttled, blocked, State, Controller, new_lane, release_lane, release_lane, Event,
  asks, ends, step, run,
}
use yt_scrapper.Egress.Bounds.{IsConfigured, InBounds, new_lane-InBounds, run-InBounds}
use yt_scrapper.Egress.{quarantine_seconds}
use yt_scrapper.Registry
use yt_scrapper.Worker.Execute.{World, Round, Circumstances, payload, crashed, wait_for_permit}
use yt_scrapper.Tests.Samples.{fixed, tiny, fixed_laws, table, controller}

controller-IsConfigured : IsConfigured fixed controller
controller-IsConfigured = record {
  ceiling_admits = refl;
  interval_low = refl;
  interval_high = refl;
}

abbrev fresh : State fixed
fresh = new_lane fixed controller

-- A request, a success, a refusal as throttled, and another request before the second is over.
abbrev events : List (Event fixed)
events = asks 0 ∷ ends ok 10 10 ∷ asks 20 ∷ ends throttled 30 30 ∷ asks 40 ∷ []

run-InBounds_example : InBounds fixed controller (run fixed controller fresh events)
run-InBounds_example =
    run-InBounds fixed fixed_laws controller controller-IsConfigured fresh events
      (new_lane-InBounds fixed fixed_laws controller controller-IsConfigured)

run-events :
    let s = run fixed controller fresh events in
    (s.window ≡ 1000000) × (s.minimum_interval ≡ 1000000) × (s.in_flight ≡ 0)
unfolding run step
run-events = (refl, refl, refl)

abbrev tiny_controller : Controller tiny
tiny_controller = record { minimum_interval_seconds = 0; window_ceiling = 6000000; states = [] }

-- Past the range of a float the release of a blocked lane raises, and the lane is not quarantined.
release_lane-overflow :
    let (t, was_raised) =
      release_lane tiny tiny_controller (new_lane tiny tiny_controller) blocked 0 0 in
    (was_raised ≡ true) × (t.quarantined_until ≡ 0)
unfolding release_lane quarantine_seconds
release_lane-overflow = (refl, refl)

abbrev pub world : World fixed
world = record {
  jobs = table;
  sources = [];
  lanes = [];
  slots = record { cheap_count = 0; standard_count = 0; expensive_count = 1 };
  controller = controller;
}

abbrev once : Round fixed
once = record { asked_at = 5; checked_at = 5; others = λ c. c }

abbrev pub circumstances : Circumstances fixed
circumstances = record {
  rounds = once ∷ [];
  during = λ w. w;
  collected = payload (some (("d", "jNQXAC9IVRw") ∷ [])) "digest" 12;
  released_at = 9;
  reading = 9;
  observed_at = 9;
  lane_is_written = true;
  now = 50;
  jitter = 1000000;
}

-- The controller once the permit is taken.
abbrev permitted : Controller fixed
permitted = record controller {
  states = (("direct", youtube), record fresh { in_flight = 1; next_earliest_start = 5 }) ∷ [];
}

-- A job that crashes gives back what it held.
abbrev crashing : Circumstances fixed
crashing = record circumstances { collected = crashed }

no-permit : wait_for_permit fixed ("direct", youtube) [] controller ≡ (false, controller)
unfolding wait_for_permit
no-permit = refl
