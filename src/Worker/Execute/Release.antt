-- ===== src/Worker/Execute/Release.antt =====
-- A job gives back the slot and the permit that it held, however it ended.
use yt_scrapper.Base.{String, false, Option, some, ◌≡◌, refl}
use yt_scrapper.Floats.{FloatOps}
use yt_scrapper.Egress.{Lane, Controller}
use yt_scrapper.Registry
use yt_scrapper.Registry.{Registry, Source}
use yt_scrapper.Worker.Gates.{leave}
use yt_scrapper.Worker.Outcome.{requeue}
use yt_scrapper.Worker.Execute.{
  World, Circumstances, wait_for_permit, handle, finish, execute, execute_found,
}

module _ (fl : FloatOps) where
  module _ (r : Registry) (egress : String) (source : Source) where
    abbrev route : String × Lane
    route = (egress, source.lane)

    -- The world after the `finally` of the collection.
    abbrev finished : String → String → String → Circumstances fl → World fl → World fl
    finished k kind target e w = (finish fl route e (handle fl k kind target e (e.during w)).0).0

    -- A job that gets no permit gives its slot back too, and its row is put back.
    execute-refused :
        (k kind target : String) (follow_up : Option String) (e : Circumstances fl) (w : World fl)
        (c : Controller fl)
        → Registry.find kind r ≡ some source
        → wait_for_permit fl (egress, source.lane) e.rounds w.controller ≡ (false, c)
        → let (after, was_raised) = execute fl r egress k kind target follow_up e w in
          (after.slots ≡ leave source.cost w.slots)
          × (after.jobs ≡ requeue k w.jobs)
          × (was_raised ≡ false)
    unfolding execute
    execute-refused k kind target follow_up e w c f p =
        rw (f, execute_found) (rw p (refl, refl, refl))
