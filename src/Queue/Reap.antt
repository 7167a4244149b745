-- ===== src/Queue/Reap.antt =====
-- What the reaper does to each row, and that it does it once.
use yt_scrapper.Base.{
  true, inl, inr, Bool-cases, Option-cases, ◌≤◌, ◌<◌, false, none, some, [], ◌∷◌, ◌≡◌, refl, arith,
  ◌⊎◌, Time, if◌then◌else◌, select, length, map,
}
use yt_scrapper.Models.{Job, Jobs, queued, running, failed, update_where}
use yt_scrapper.Queue.{reap_expired_leases, reaped, is_abandoned}

module _ (now : Time) where
  -- What the reaper makes of one row.
  abbrev reap_row : Job → Job
  reap_row j = if is_abandoned now j then reaped now j else j

  rows_of_reap :
      (js : Jobs)
      → reap_expired_leases now js ≡ (length (select (is_abandoned now) js), map reap_row js)
  unfolding reap_expired_leases update_where
  rows_of_reap [] = refl
  rows_of_reap (j ∷ js) = ground (arith, rows_of_reap js)

  -- Running, under a lease that was over before now.
  abbrev HasExpired : Job → Type 0
  HasExpired j = (j.state ≡ running) × (t : Time) × (j.lease_expires_at ≡ some t) × (t < now)

  -- A row given back: failed if its attempts are used up, and queued again if not.
  abbrev IsReaped : Job → Job → Type 0
  IsReaped j i =
      (i.claimed_by ≡ none)
      × (i.lease_expires_at ≡ none)
      × (i.attempt_count ≡ j.attempt_count)
      × (((j.max_attempts ≤ j.attempt_count) × (i.state ≡ failed) × (i.finished_at ≡ some now))
          ⊎ ((j.attempt_count < j.max_attempts) × (i.state ≡ queued)))

  reaped-IsReaped : (j : Job) → IsReaped j (reaped now j)
  unfolding reaped
  reaped-IsReaped j = ground arith

  HasExpired-is_abandoned : (j : Job) → HasExpired j → is_abandoned now j ≡ true
  unfolding is_abandoned
  HasExpired-is_abandoned j (s, t, e, l) = ground arith

  is_abandoned-HasExpired : (j : Job) → is_abandoned now j ≡ true → HasExpired j
  unfolding is_abandoned
  is_abandoned-HasExpired j a = elim (Option-cases j.lease_expires_at) [
    | inl e ↦ absurd (ground arith)
    | inr (t, e) ↦ (ground arith, t, e, ground arith)
  ]

  -- One pass visits every row, and returns the number of those it changed. A running job whose
  -- lease is over loses its worker and its lease, keeps its count of attempts, and is failed if
  -- they are used up and queued again if not. Every other row stays as it was.
  reap-rows :
      (js : Jobs)
      → (reap_expired_leases now js ≡ (length (select (is_abandoned now) js), map reap_row js))
        × ((j : Job)
            → (HasExpired j × IsReaped j (reap_row j)) ⊎ ((¬ HasExpired j) × (reap_row j ≡ j)))
  reap-rows js = (
    rows_of_reap js,
    λ j. elim (Bool-cases (is_abandoned now j)) [
      | inl a ↦ inl (is_abandoned-HasExpired j a, rw a (reaped-IsReaped j))
      | inr a ↦ inr ((λ h. let b = HasExpired-is_abandoned j h in absurd (cc b)), rw a)
    ],
  )

  not_abandoned : (j : Job) → is_abandoned now (reap_row j) ≡ false
  unfolding is_abandoned reaped
  not_abandoned j = ground arith

  -- A second pass at the same instant finds nothing and changes nothing.
  reap_twice :
      (js : Jobs)
      → reap_expired_leases now (reap_expired_leases now js).1 ≡ (0, (reap_expired_leases now js).1)
  unfolding reap_expired_leases update_where
  reap_twice [] = refl
  reap_twice (j ∷ js) = ground (arith, not_abandoned j, reap_twice js)
