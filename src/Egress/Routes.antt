-- ===== src/Egress/Routes.antt =====
-- The controller's dictionary: a method on one route leaves every other route alone.
use yt_scrapper.Base.{
  String, true, false, List, [], ◌∷◌, arith, refl, ◌≡◌, eq_iff, some, ◌+◌, ◌-◌, Option-cases,
  if◌then◌else◌, inl, inr,
}
use yt_scrapper.Floats.{FloatOps}
use yt_scrapper.Egress.{
  Lane, same_lane, same_route, State, Controller, Verdict, ok, throttled, blocked, neutral, apply,
  quarantine_seconds, observed, find, put, lane_state, acquire, release, acquire_lane, release_lane,
}

same_lane_iff : (l m n : Lane) → same_lane l m ≡ true → same_lane l n ≡ same_lane m n
same_lane_iff l m n h = ground arith

same_lane_refl : (l : Lane) → same_lane l l ≡ true
same_lane_refl l = ground arith

-- Keys that are equal to one key are equal to the same keys.
same_route_iff : (i j k : String × Lane) → same_route i j ≡ true → same_route i k ≡ same_route j k
unfolding same_route
same_route_iff (e, l) (f, m) (g, n) h =
    ground (arith, eq_iff e f, eq_iff e g, eq_iff f g, same_lane_iff l m n)

same_route_refl : (i : String × Lane) → same_route i i ≡ true
unfolding same_route
same_route_refl (e, l) = ground (arith, eq_iff e e)

same_route_symm : (i j : String × Lane) → same_route i j ≡ same_route j i
unfolding same_route
same_route_symm (e, l) (f, m) = ground (arith, eq_iff e f, eq_iff f e)

module _ (fl : FloatOps) where
  find-put :
      (k j : String × Lane) (s : State fl) (m : List ((String × Lane) × State fl))
      → find fl j (put fl k s m) ≡ (if same_route k j then some s else find fl j m)
  unfolding find put
  find-put k j s [] = refl
  find-put k j s ((i, t) ∷ m) =
      ground
        (arith, same_route_iff i k j, same_route_iff i j k, same_route_symm k j, find-put k j s m)

  module _ (c : Controller fl) (k j : String × Lane) (apart : same_route k j ≡ false) where
    -- Requests and verdicts on one (egress, lane) pair leave the state of every other pair as it
    -- was, so that a quarantine on one never slows another.
    release-others :
        (v : Verdict) (now reading : fl.Float)
        → (lane_state fl (acquire fl c k now).1 j ≡ lane_state fl c j)
          × (lane_state fl (release fl c k v now reading).0 j ≡ lane_state fl c j)
    unfolding acquire release lane_state
    release-others v now reading = ground (
      arith,
      find-put k j (acquire_lane fl (lane_state fl c k) now).1 c.states,
      find-put k j (release_lane fl c (lane_state fl c k) v now reading).0 c.states,
    )

  find-put_self :
      (k : String × Lane) (s : State fl) (m : List ((String × Lane) × State fl))
      → find fl k (put fl k s m) ≡ some s
  find-put_self k s m = ground (arith, find-put k k s m, same_route_refl k)

  apply-in_flight :
      (c : Controller fl) (s : State fl) (v : Verdict) (now reading : fl.Float)
      → (apply fl c s v now reading).0.in_flight ≡ s.in_flight
  unfolding apply
  apply-in_flight c s ok now reading = refl
  apply-in_flight c s throttled now reading = refl
  apply-in_flight c s neutral now reading = refl
  apply-in_flight c s blocked now reading =
      elim (Option-cases (quarantine_seconds fl (s.quarantine_streak + 1))) [
        | inl e ↦ rw e
        | inr (b, e) ↦ rw e
      ]

  release_lane-in_flight :
      (c : Controller fl) (s : State fl) (v : Verdict) (now reading : fl.Float)
      → (release_lane fl c s v now reading).0.in_flight ≡ s.in_flight - 1
  unfolding release_lane
  release_lane-in_flight c s v now reading =
      apply-in_flight c (record s { in_flight = s.in_flight - 1 }) v now reading

  -- A release gives one slot of its route back, whatever the verdict, and also if it raises.
  pub release-in_flight :
      (c : Controller fl) (k : String × Lane) (v : Verdict) (now reading : fl.Float)
      → (lane_state fl (release fl c k v now reading).0 k).in_flight
        ≡ (lane_state fl c k).in_flight - 1
  unfolding release lane_state
  release-in_flight c k v now reading =
      rw (find-put_self k (release_lane fl c (lane_state fl c k) v now reading).0 c.states)
        (release_lane-in_flight c (lane_state fl c k) v now reading)

  -- Reading a lane changes the state of none.
  pub observed-same :
      (c : Controller fl) (k : String × Lane)
      → (lane_state fl (observed fl c k).1 k).in_flight ≡ (lane_state fl c k).in_flight
  unfolding observed lane_state
  observed-same c k = ground (arith, find-put_self k (lane_state fl c k) c.states)
