-- ===== src/Worker/Execute/Effects.antt =====
-- What a collection that succeeded leaves on the job's row, and what it queues.
use yt_scrapper.Base.{ℕ, String, none, some, Time, is_some, if◌then◌else◌}
use yt_scrapper.Floats.{FloatOps}
use yt_scrapper.Models.{Job, succeeded, cancelled}
use yt_scrapper.Egress
use yt_scrapper.Registry
use yt_scrapper.Registry.{Registry, Source}
use yt_scrapper.Worker.Outcome.{settled}
use yt_scrapper.Worker.Execute.{World, Circumstances, leaving, finish}

module _ (fl : FloatOps) (r : Registry) (egress : String) (source : Source) where
  -- What the worker makes of the row of a job whose collection succeeded.
  abbrev collected_row : String → ℕ → Time → Job → Job
  collected_row digest byte_count now j =
      if is_some j.cancel_requested_at
      then settled cancelled none none none now j
      else settled succeeded (some digest) (some byte_count) none now j

  -- The world in which a collection under a permit comes to its conclusion.
  abbrev concluding : Circumstances fl → World fl → World fl
  concluding e w = leaving fl source (finish fl (egress, source.lane) e (e.during w)).0
