-- ===== src/Queue/Bounds.antt =====
-- The attempts of a row of the queue, which no change of a row takes past those that it may have,
-- except that a write from values read earlier may leave it one more.
use yt_scrapper.Base.{ℕ, ◌+◌, ◌≤◌, ◌<◌, String, Bool, true, Option, Time, arith, ◌≡◌}
use yt_scrapper.Models.{Job, JobState, queued, is_terminal}
use yt_scrapper.Queue.{taken, is_untaken, cancelled_row, renewed, reap_write, reaped, is_abandoned}
use yt_scrapper.Worker.Outcome.{Fault, settled, requeued, retried}
use yt_scrapper.Webhooks.{settled_delivery}

-- The attempts that a job has had, against those that it may have and a number of late writes. A
-- queued job has one left.
pub record IsBounded (late : ℕ) (j : Job) : Type 0 where
  pub some_allowed : 1 ≤ j.max_attempts
  pub within : j.attempt_count ≤ j.max_attempts + late
  pub one_left : j.state ≡ queued → j.attempt_count < j.max_attempts + late

pub taken-IsBounded :
    (late : ℕ) (worker : String) (lease now : Time) (k : String) (j : Job)
    → is_untaken k j ≡ true
    → IsBounded late j
    → IsBounded late (taken worker lease now j)
taken-IsBounded late worker lease now k j u h = ground arith

pub cancelled_row-IsBounded :
    (late : ℕ) (now : Time) (j : Job) → IsBounded late j → IsBounded late (cancelled_row now j)
cancelled_row-IsBounded late now j h = ground arith

pub renewed-IsBounded :
    (late : ℕ) (lease now : Time) (j : Job)
    → IsBounded late j
    → IsBounded late (renewed lease now j)
renewed-IsBounded late lease now j h = ground arith

pub reaped-IsBounded :
    (late : ℕ) (now : Time) (j : Job)
    → is_abandoned now j ≡ true
    → IsBounded late j
    → IsBounded late (reaped now j)
unfolding reaped
reaped-IsBounded late now j a h = ground arith

pub settled-IsBounded :
    (late : ℕ) (state : JobState) (digest : Option String) (byte_count : Option ℕ)
    (fault : Option Fault) (now : Time) (j : Job)
    → is_terminal state ≡ true
    → IsBounded late j
    → IsBounded late (settled state digest byte_count fault now j)
settled-IsBounded late state digest byte_count fault now j t h = ground arith

pub requeued-IsBounded : (late : ℕ) (j : Job) → IsBounded late j → IsBounded late (requeued j)
requeued-IsBounded late j h = ground arith

pub settled_delivery-IsBounded :
    (late : ℕ) (b : Bool) (now : Time) (j : Job)
    → IsBounded late j
    → IsBounded late (settled_delivery b now j)
settled_delivery-IsBounded late b now j h = ground arith

-- What is written from values read earlier may queue the row whatever it has become.
pub reap_write-IsBounded :
    (late : ℕ) (now : Time) (read j : Job)
    → IsBounded late j
    → IsBounded (late + 1) (reap_write now read j)
unfolding reap_write
reap_write-IsBounded late now read j h = ground arith

pub retried-late :
    (late : ℕ) (delay : Time) (fault : Fault) (now : Time) (j : Job)
    → IsBounded late j
    → IsBounded (late + 1) (retried delay fault now j)
retried-late late delay fault now j h = ground arith

pub IsBounded-mono :
    (late later : ℕ) (j : Job) → late ≤ later → IsBounded late j → IsBounded later j
IsBounded-mono late later j l h = ground arith
