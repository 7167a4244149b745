-- ===== src/Tests/Jobs.antt =====
-- The queue, the worker and the registry at concrete inputs.
use yt_scrapper.Base.{◌≡◌, refl, String, Bool, false, none, some, [], ◌∷◌, All, arith, ◌↔◌}
use yt_scrapper.Errors.{err, conflict, rate_limited, text, already_finished}
use yt_scrapper.Models.{Job, Jobs, get, queued, modify, update_where}
use yt_scrapper.Models.Rows.{Distinct}
use yt_scrapper.Queue.{claim, cancel, taken, reap_write, reap_expired_leases}
use yt_scrapper.Queue.Claim.{claim-some, claim-none}
use yt_scrapper.Queue.Order.{IsFirst, IsClaimable}
use yt_scrapper.Registry.{Source, kinds}
use yt_scrapper.Lifecycle.{Reach, here, next, claims, reaps, late_reaps, late_writes}
use yt_scrapper.Lifecycle.Attempts.{given}
use yt_scrapper.Worker.Gates.{Slots, claim_job}
use yt_scrapper.Worker.Gates.Reserve.{InReserve, IsCounted, claim_job-InReserve}
use yt_scrapper.Worker.Outcome.{fail_or_retry}
use yt_scrapper.Worker.Outcome.Rows.{fail_or_retry-row, AfterFailure}
use yt_scrapper.Tests.Samples.{
  fixed, fixed_laws, job, listing, finished_job, table, registry, metadata,
}

abbrev nothing_locked : String → Bool
nothing_locked k = false

table-Distinct : Distinct table
unfolding get
table-Distinct = (refl, (refl, (refl, tt)))

-- The due job is claimed, and runs with one attempt counted.
claim-table :
    claim "w" 900 none nothing_locked 20 table
    ≡ (some (taken "w" 900 20 job), taken "w" 900 20 job ∷ listing ∷ finished_job ∷ [])
unfolding claim get update_where
claim-table = refl

-- Before it is due there is nothing to claim.
claim-early : claim "w" 900 none nothing_locked 9 table ≡ (none, table)
unfolding claim get update_where
claim-early = refl

claim-some_example :
    (c : Job) × (get c.identifier table ≡ some c)
    × IsClaimable nothing_locked 20 none c
    × IsFirst nothing_locked 20 none c table
    × (taken "w" 900 20 job ≡ taken "w" 900 20 c)
    × (taken "w" 900 20 job ∷ listing ∷ finished_job ∷ []
        ≡ modify c.identifier (taken "w" 900 20) table)
claim-some_example = claim-some "w" 900 none nothing_locked 20 table table-Distinct claim-table

claim-none_example :
    ((claim "w" 900 none nothing_locked 9 table).0 ≡ none)
    ↔ All (λ j. ¬ IsClaimable nothing_locked 9 none j) table
claim-none_example = claim-none "w" 900 none nothing_locked 9 table table-Distinct

get-listing : get "b" table ≡ some listing
unfolding get
get-listing = refl

cancel-finished : cancel "c" 25 table ≡ (err conflict (already_finished "c"), table)
unfolding cancel get
cancel-finished = refl

-- A pass after the lease has run out returns the listing to the queue.
reap-table : reap_expired_leases 31 table ≡ (
  1,
  job
      ∷ record listing { state = queued; claimed_by = none; lease_expires_at = none }
      ∷ finished_job
      ∷ [],
)
unfolding reap_expired_leases update_where
reap-table = refl

-- A reaper reads the listing as it runs; another queues it and it is claimed again before the first
-- writes, so that it is claimed once more beside the worker that runs it.
abbrev reclaimed : Jobs
reclaimed = (claim "w" 900 none nothing_locked 40 (reap_expired_leases 31 table).1).1

abbrev late_table : Jobs
late_table = (claim "v" 900 none nothing_locked 42 (modify "b" (reap_write 41 listing) reclaimed)).1

abbrev late_steps : Reach fixed table late_table
late_steps =
    next
      (next (next (next here (reaps 31)) (claims "w" 900 none nothing_locked 40))
        (late_reaps "b" listing 41))
      (claims "v" 900 none nothing_locked 42)

abbrev late_listing : Job
late_listing = record listing {
  attempt_count = 3;
  claimed_by = some "v";
  lease_expires_at = some 942;
}

-- It is given twice, beside the attempt of the start, and was written late once.
given-late_steps : (given "b" late_steps ≡ 2) × (late_writes late_steps "b" ≡ 1)
unfolding claim get update_where reap_expired_leases modify reap_write
given-late_steps = (refl, refl)

abbrev no_slots : Slots
no_slots = record { cheap_count = 0; standard_count = 0; expensive_count = 0 }

claim_job-InReserve_example :
    let (claimed, _, s) = claim_job registry 4 "w" 900 nothing_locked 20 table no_slots in
    InReserve 4 s × IsCounted registry 4 claimed no_slots s
claim_job-InReserve_example =
    claim_job-InReserve registry 4 "w" 900 nothing_locked 20 table no_slots table-Distinct
      (omega arith)

fail_or_retry-row_example :
    (js' : Jobs) × (j' : Job) × (fail_or_retry fixed "b" (rate_limited, text "429") 40 1000000 table
      ≡ some js')
    × (get "b" js' ≡ some j')
    × AfterFailure fixed (rate_limited, text "429") 40 1000000 listing j'
fail_or_retry-row_example =
    fail_or_retry-row fixed (rate_limited, text "429") 40 1000000 fixed_laws "b" table listing
      get-listing (omega arith)

abbrev comments : Source
comments = record metadata { kind = "video.comments" }

kinds-registry : kinds registry ≡ "channel.videos" ∷ "video.metadata" ∷ []
unfolding kinds
kinds-registry = refl
