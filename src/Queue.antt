-- ===== src/Queue.antt =====
-- src/tubedepth/repositories.py, `JobRepository`: taking, cancelling, renewing and reaping jobs.
-- A method takes the rows and returns the new rows beside its result. A call is one transaction,
-- so what another transaction holds is a test on identifiers, `locked`.
pub mod Order
pub mod Bounds
pub mod Claim
pub mod Cancel
pub mod Reap
use yt_scrapper.Base.{
  ℕ, ◌+◌, String, Bool, true, false, Option, none, some, List, [], ◌∷◌, Time, ltb, leb, ◌==◌, same,
  contains, not, ◌&&◌, ◌||◌, if◌then◌else◌,
}
use yt_scrapper.Errors.{
  Result, ok, err, not_found, conflict, no_such_job, already_finished, lease_expired_times,
}
use yt_scrapper.Models.{
  Job, Jobs, queued, running, failed, cancelled, lease_expired, is_queued, is_running, is_terminal,
  get, update_where, modify,
}

-- The conditions of the SELECT: queued, due, of an admitted kind, and not locked elsewhere.
abbrev pub is_admitted : Option (List String) → String → Bool
is_admitted none kind = true
is_admitted (some kinds) kind = contains kind kinds

unfoldable pub is_claimable : (String → Bool) → Time → Option (List String) → Job → Bool
is_claimable locked now kinds j =
    is_queued j.state
    && leb j.scheduled_at now
    && is_admitted kinds j.kind
    && not (locked j.identifier)

-- `ORDER BY scheduled_at, created_at`: whether the first may come before the second.
unfoldable pub comes_before : Job → Job → Bool
comes_before a b =
    ltb a.scheduled_at b.scheduled_at
    || (a.scheduled_at == b.scheduled_at && leb a.created_at b.created_at)

unfoldable pub earlier_of : Job → Option Job → Job
unfolding comes_before
earlier_of j none = j
earlier_of j (some i) = if comes_before j i then j else i

-- `... LIMIT 1`. Of two rows that tie, the one that the table lists first.
unfoldable pub candidate : (String → Bool) → Time → Option (List String) → Jobs → Option Job
unfolding is_claimable earlier_of
candidate locked now kinds [] = none
candidate locked now kinds (j ∷ js) =
    let rest = candidate locked now kinds js in
    if is_claimable locked now kinds j then some (earlier_of j rest) else rest

-- The SET list of the UPDATE.
abbrev pub taken : String → Time → Time → Job → Job
taken worker lease now j = record j {
  state = running;
  claimed_by = some worker;
  lease_expires_at = some (now + lease);
  attempt_count = j.attempt_count + 1;
}

-- The guard of the UPDATE: the candidate's row, if it is still queued.
abbrev pub is_untaken : String → Job → Bool
is_untaken k j = same j.identifier k && is_queued j.state

unfoldable pub claim_candidate : String → Time → Time → Option Job → Jobs → Option Job × Jobs
claim_candidate worker lease now none js = (none, js)
claim_candidate worker lease now (some c) js =
    let (count, js') = update_where (is_untaken c.identifier) (taken worker lease now) js in
    if count == 1 then (get c.identifier js', js') else (none, js')

unfoldable pub claim :
    String → Time → Option (List String) → (String → Bool) → Time → Jobs → Option Job × Jobs
unfolding candidate claim_candidate
claim worker lease kinds locked now js =
    claim_candidate worker lease now (candidate locked now kinds js) js

-- What `cancel` does to the row that it found.
abbrev pub cancelled_row : Time → Job → Job
cancelled_row now j =
    if is_queued j.state
    then record j {
      cancel_requested_at = some now;
      state = cancelled;
      finished_at = some now;
      claimed_by = none;
      lease_expires_at = none;
    }
    else record j { cancel_requested_at = some now }

unfoldable pub cancel_found : String → Time → Option Job → Jobs → Result Job × Jobs
cancel_found k now none js = (err not_found (no_such_job k), js)
cancel_found k now (some j) js =
    if is_terminal j.state
    then (err conflict (already_finished k), js)
    else (ok (cancelled_row now j), modify k (cancelled_row now) js)

unfoldable pub cancel : String → Time → Jobs → Result Job × Jobs
unfolding cancel_found
cancel k now js = cancel_found k now (get k js) js

abbrev pub renewed : Time → Time → Job → Job
renewed lease now j =
    if is_running j.state then record j { lease_expires_at = some (now + lease) } else j

unfoldable pub renew_lease : String → Time → Time → Jobs → Jobs
renew_lease k lease now js = modify k (renewed lease now) js

-- The SELECT of the reaper: running under a lease that has run out.
abbrev lease_is_over : Time → Option Time → Bool
lease_is_over now none = false
lease_is_over now (some t) = ltb t now

unfoldable pub is_abandoned : Time → Job → Bool
is_abandoned now j = is_running j.state && lease_is_over now j.lease_expires_at

-- The body of its loop, which writes on a row what follows from the values that were read of it.
unfoldable pub reap_write : Time → Job → Job → Job
reap_write now read j =
    let released = record j { claimed_by = none; lease_expires_at = none } in
    if leb read.max_attempts read.attempt_count
    then record released {
      state = failed;
      finished_at = some now;
      error_code = some lease_expired;
      error_message = some (lease_expired_times read.attempt_count);
    }
    else record released { state = queued }

unfoldable pub reaped : Time → Job → Job
unfolding reap_write
reaped now j = reap_write now j j

-- A pass that runs alone from its SELECT to its commit. Nothing in the code holds the rows in
-- between: what a pass writes that read its rows earlier is `reap_write` of the values read.
unfoldable pub reap_expired_leases : Time → Jobs → ℕ × Jobs
unfolding is_abandoned reaped
reap_expired_leases now = update_where (is_abandoned now) (reaped now)
