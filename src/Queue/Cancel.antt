-- ===== src/Queue/Cancel.antt =====
-- What `cancel` and `renew_lease` do on every branch.
use mathlib.Core.Option
use yt_scrapper.Base.{
  if◌then◌else◌, String, Bool, true, false, not, Option, none, some, same, ◌≡◌, refl, arith, eq_iff,
  Bool-cases, ◌∙◌, ◌⊎◌, inl, inr, Time, Option-cases,
}
use yt_scrapper.Errors.{ok, err, not_found, conflict, no_such_job, already_finished}
use yt_scrapper.Models.{Job, Jobs, running, queued, cancelled, is_terminal, get, modify}
use yt_scrapper.Models.Rows.{KeepsKey, get-modify, get-modify_self}
use yt_scrapper.Queue.{cancel, cancelled_row, cancel_found, renew_lease, renewed}

module _ (now : Time) where
  cancelled_row-KeepsKey : KeepsKey (cancelled_row now)
  cancelled_row-KeepsKey j = ground arith

  -- What the row of a cancelled job says afterwards, by the state that it was in.
  abbrev Cancelled : Job → Job → Type 0
  Cancelled j j' =
      ((j.state ≡ queued)
        × (j'.state ≡ cancelled)
        × (j'.finished_at ≡ some now)
        × (j'.claimed_by ≡ none)
        × (j'.lease_expires_at ≡ none))
      ⊎ ((j.state ≡ running)
          × (j'.state ≡ running)
          × (j'.finished_at ≡ j.finished_at)
          × (j'.claimed_by ≡ j.claimed_by)
          × (j'.lease_expires_at ≡ j.lease_expires_at))

  abbrev is_open : Option Job → Bool
  is_open none = false
  is_open (some j) = not (is_terminal j.state)

  cancelled_row-Cancelled : (j : Job) → is_open (some j) ≡ true → Cancelled j (cancelled_row now j)
  cancelled_row-Cancelled j t = ground arith

  cancel-open :
      (k : String) (js : Jobs) (j : Job)
      → get k js ≡ some j
      → is_open (some j) ≡ true
      → cancel k now js ≡ (ok (cancelled_row now j), modify k (cancelled_row now) js)
  unfolding cancel
  cancel-open k js j e t = rw (e, cancel_found) (ground arith)

  cancel-closed :
      (k : String) (js : Jobs) (j : Job)
      → get k js ≡ some j
      → is_terminal j.state ≡ true
      → cancel k now js ≡ (err conflict (already_finished k), js)
  unfolding cancel
  cancel-closed k js j e t = rw (e, cancel_found) (rw t)

  cancel-absent :
      (k : String) (js : Jobs)
      → get k js ≡ none
      → cancel k now js ≡ (err not_found (no_such_job k), js)
  unfolding cancel
  cancel-absent k js e = rw e

  cancelled_row-get :
      (k l : String) (js : Jobs) (j : Job)
      → get k js ≡ some j
      → get l (modify k (cancelled_row now) js)
        ≡ (if same k l then some (cancelled_row now j) else get l js)
  cancelled_row-get k l js j e = elim (Bool-cases (same k l)) [
    | inl t ↦
        let q : k ≡ l = (eq_iff k l).0 t in
        rw t (rw (← q) (get-modify_self k (cancelled_row now) js cancelled_row-KeepsKey e))
    | inr t ↦ rw t (get-modify k l (cancelled_row now) js cancelled_row-KeepsKey ∙ rw t)
  ]

  -- A job that has not finished is cancelled: the request is on its row; a queued job is cancelled
  -- outright, with no worker and no lease left on it, and a running one is only marked. The
  -- returned job is the new row, and every other row is as it was.
  cancel-ok :
      (k : String) (js : Jobs) (j : Job)
      → get k js ≡ some j
      → is_open (some j) ≡ true
      → let (r, js') = cancel k now js in
        (j' : Job) × (r ≡ ok j')
        × (j'.cancel_requested_at ≡ some now)
        × Cancelled j j'
        × ((l : String) → get l js' ≡ (if same k l then some j' else get l js))
  cancel-ok k js j e t = rw (cancel-open k js j e t) (
    cancelled_row now j,
    refl,
    ground arith,
    cancelled_row-Cancelled j t,
    (λ l. cancelled_row-get k l js j e),
  )

  -- A job that is not there, or that has finished, is refused by the error that says which, and
  -- nothing is written.
  cancel-err :
      (k : String) (js : Jobs)
      → is_open (get k js) ≡ false
      → ((cancel k now js).1 ≡ js)
        × (((get k js ≡ none) × ((cancel k now js).0 ≡ err not_found (no_such_job k)))
            ⊎ ((j : Job) × (get k js ≡ some j)
                × (is_terminal j.state ≡ true)
                × ((cancel k now js).0 ≡ err conflict (already_finished k))))
  cancel-err k js h = elim (Option-cases (get k js)) [
    | inl e ↦ rw (cancel-absent k js e) (refl, inl (e, refl))
    | inr (j, e) ↦
        let t : is_terminal j.state ≡ true = ground arith in
        rw (cancel-closed k js j e t) (refl, inr (j, e, t, refl))
  ]

-- A lease is pushed out for a running job, and nothing else of the table changes.
renew_lease-get :
    (lease now : Time) (k l : String) (js : Jobs)
    → get l (renew_lease k lease now js)
      ≡ (if same k l then Option.map (renewed lease now) (get l js) else get l js)
unfolding renew_lease
renew_lease-get lease now k l js = get-modify k l (renewed lease now) js (λ j. ground arith)
