-- ===== src/Lifecycle/Attempts.antt =====
-- How often a job is given to a worker, over any steps.
use yt_scrapper.Base.{ℕ, ◌+◌, String, Option, none, some}
use mathlib.Core.Option
use yt_scrapper.Floats.{FloatOps}
use yt_scrapper.Models.{Job, Jobs, get}
use yt_scrapper.Queue.{claim}
use yt_scrapper.Lifecycle.{Step, claims, puts_back, Reach, here, next, one_at}

abbrev attempts_in : Option Job → ℕ
attempts_in none = 0
attempts_in (some j) = j.attempt_count

-- The attempts counted on a job's row.
abbrev pub attempts_of : String → Jobs → ℕ
attempts_of k js = attempts_in (get k js)

abbrev is_given : String → Option Job → ℕ
is_given k none = 0
is_given k (some j) = one_at j.identifier k

-- The claims that return a job, and the times that it is put back.
abbrev given_by : {fl : FloatOps} {js js' : Jobs} → String → Step fl js js' → ℕ
given_by {js = js} k (claims worker lease kinds locked now) =
    is_given k (claim worker lease kinds locked now js).0
given_by k _ = 0

abbrev put_back_by : {fl : FloatOps} {js js' : Jobs} → String → Step fl js js' → ℕ
put_back_by k (puts_back i) = one_at i k
put_back_by k _ = 0

abbrev pub given : {fl : FloatOps} {js js' : Jobs} → String → Reach fl js js' → ℕ
given k here = 0
given k (next r st) = given k r + given_by k st

abbrev pub put_backs : {fl : FloatOps} {js js' : Jobs} → String → Reach fl js js' → ℕ
put_backs k here = 0
put_backs k (next r st) = put_backs k r + put_back_by k st
