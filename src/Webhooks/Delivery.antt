-- ===== src/Webhooks/Delivery.antt =====
-- What a sweep of callbacks does to each job.
use yt_scrapper.Base.{
  ℕ, suc, ◌+◌, Bool, true, false, [], ◌∷◌, Time, select, length, if◌then◌else◌, arith, ◌≡◌, ◌⊎◌,
  ◌∙◌,
}
use yt_scrapper.Models.{Job, Jobs}
use yt_scrapper.Webhooks.{
  Announcement, announcement, is_owed, settled_delivery, settle_delivery, deliver_each,
  deliver_pending,
}

module _ (maximum : ℕ) (send : Announcement → Bool) (now : Time) where
  abbrev accepts : Job → Bool
  accepts j = send (announcement j)

  -- A row after a sweep, as a function of the row before it.
  abbrev pub swept : Job → Job
  swept j = if is_owed maximum j then settled_delivery (accepts j) now j else j

module _ (maximum : ℕ) (send : Announcement → Bool) (now : Time) where
  -- What is delivered is never owed again, and neither is what has been tried as often as allowed.
  swept-not_owed :
      (j : Job)
      → is_owed maximum j ≡ true
      → (send (announcement j) ≡ true) ⊎ (j.webhook_attempts + 1 ≡ maximum)
      → is_owed maximum (swept maximum send now j) ≡ false
  unfolding is_owed
  swept-not_owed j o h = ground arith

  deliver_each-count :
      (pending : Jobs) (acc : ℕ × Jobs)
      → (deliver_each (accepts maximum send now) now pending acc).0
        ≡ acc.0 + length (select (accepts maximum send now) pending)
  unfolding deliver_each
  deliver_each-count [] acc = omega arith
  deliver_each-count (j ∷ pending) (n, js) = ground (
    arith,
    deliver_each-count pending (
      (if accepts maximum send now j then suc n else n),
      settle_delivery j.identifier (accepts maximum send now j) now js,
    ),
  )

  -- The number returned is that of the owed jobs whose announcement was accepted.
  deliver_pending-count :
      (js : Jobs)
      → (deliver_pending maximum send now js).0
        ≡ length (select (accepts maximum send now) (select (is_owed maximum) js))
  unfolding deliver_pending
  deliver_pending-count js = deliver_each-count (select (is_owed maximum) js) (0, js) ∙ omega arith
