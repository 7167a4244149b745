-- ===== src/Lifecycle.antt =====
-- Every way in which the program writes the `jobs` table, as one step relation, and what holds of
-- the table after any steps: workers, the reaper, clients and the webhook sender, in any order.
-- A write runs alone from its read to its commit, except that the reaper and a failure, which
-- flush by primary key alone, also write from values of the row that they read at another time.
pub mod Sound
pub mod Attempts
use yt_scrapper.Base.{
  ℕ, ◌+◌, ◌≤◌, String, Bool, true, Option, none, some, List, [], ◌∷◌, ◌++◌, Time, same,
  if◌then◌else◌, ◌≡◌, All,
}
use yt_scrapper.Floats.{FloatOps}
use yt_scrapper.Models.{Job, Jobs, JobState, queued, is_terminal, get, modify}
use yt_scrapper.Models.Rows.{Distinct}
use yt_scrapper.Queue.{claim, cancel, renew_lease, reap_expired_leases, reap_write}
use yt_scrapper.Worker.Outcome.{Fault, settle, requeue, fail_or_retry, fail_found}
use yt_scrapper.Webhooks.{settle_delivery}
use yt_scrapper.Queue.Bounds.{IsBounded}

-- One write: a claim, a cancellation, a renewal, a pass of the reaper, the end of a job (in a
-- finished state), a failure, a job put back, a callback settled, or a new job with no attempts
-- made, one at the least allowed, and a key of its own. The late ones are what the reaper and a
-- failure write on a row that is not, or no longer, as they read it, whatever they read.
pub data Step (fl : FloatOps) (js : Jobs) : Jobs → Type 0 where
  claims :
      (worker : String) (lease : Time) (kinds : Option (List String)) (locked : String → Bool)
      (now : Time)
      → Step fl js (claim worker lease kinds locked now js).1
  cancels : (k : String) (now : Time) → Step fl js (cancel k now js).1
  renews : (k : String) (lease now : Time) → Step fl js (renew_lease k lease now js)
  reaps : (now : Time) → Step fl js (reap_expired_leases now js).1
  settles :
      (k : String) (state : JobState) (digest : Option String) (byte_count : Option ℕ)
      (fault : Option Fault) (now : Time)
      → is_terminal state ≡ true
      → Step fl js (settle k state digest byte_count fault now js)
  fails :
      (k : String) (fault : Fault) (now : Time) (jitter : fl.Float) {js' : Jobs}
      → fail_or_retry fl k fault now jitter js ≡ some js'
      → Step fl js js'
  late_reaps :
      (k : String) (read : Job) (now : Time) → Step fl js (modify k (reap_write now read) js)
  late_fails :
      (k : String) (read : Job) (fault : Fault) (now : Time) (jitter : fl.Float) {js' : Jobs}
      → fail_found fl k (some read) fault now jitter js ≡ some js'
      → Step fl js js'
  puts_back : (k : String) → Step fl js (requeue k js)
  announces :
      (k : String) (accepted : Bool) (now : Time) → Step fl js (settle_delivery k accepted now js)
  submits :
      (j : Job)
      → get j.identifier js ≡ none
      → j.state ≡ queued
      → j.attempt_count ≡ 0
      → 1 ≤ j.max_attempts
      → Step fl js (js ++ j ∷ [])

pub data Reach (fl : FloatOps) (js : Jobs) : Jobs → Type 0 where
  here : Reach fl js js
  next : {ks ls : Jobs} → Reach fl js ks → Step fl ks ls → Reach fl js ls

abbrev pub one_at : String → String → ℕ
one_at k i = if same k i then 1 else 0

-- The late writes on a row.
abbrev pub late_by : {fl : FloatOps} {js js' : Jobs} → Step fl js js' → String → ℕ
late_by (late_reaps k read now) i = one_at k i
late_by (late_fails k read fault now jitter e) i = one_at k i
late_by _ i = 0

abbrev pub late_writes : {fl : FloatOps} {js js' : Jobs} → Reach fl js js' → String → ℕ
late_writes here i = 0
late_writes (next r st) i = late_writes r i + late_by st i

-- Steps among which there is no late write.
abbrev pub Timely : FloatOps → Jobs → Jobs → Type 0
Timely fl js ks = (r : Reach fl js ks) × ((k : String) → late_writes r k ≡ 0)

abbrev pub Bounded : (String → ℕ) → Job → Type 0
Bounded late j = IsBounded (late j.identifier) j

-- What holds of a table, for a number of late writes on each row.
pub record IsSound (late : String → ℕ) (js : Jobs) : Type 0 where
  pub distinct : Distinct js
  pub bounded : All (Bounded late) js
