-- ===== src/Api/Control.antt =====
-- `read_control` and `change_control`, and what the worker reads of the row that they write.
use text.Mathlib.TextPositions.{eq_refl}
use yt_scrapper.Base.{
  String, Bool, false, Option, none, some, List, [], ◌∷◌, Time, same, if◌then◌else◌, ◌≡◌, refl,
  arith,
}

-- A row of the `worker_control` table (models.py).
pub record WorkerControl : Type 0 where
  pub identifier : String
  pub paused : Bool
  pub reason : Option String
  pub changed_at : Time

pub record ControlView : Type 0 where
  pub paused : Bool
  pub reason : Option String
  pub changed_at : Option Time

pub record ControlChange : Type 0 where
  pub paused : Bool
  pub reason : Option String

abbrev worker_control_id : String
worker_control_id = "worker"

-- `session.get(WorkerControl, key)`
unfoldable control_at : String → List WorkerControl → Option WorkerControl
control_at k [] = none
control_at k (c ∷ rows) = if same c.identifier k then some c else control_at k rows

-- `session.add(control)` and `session.flush()`: the row of its key, or a new one.
unfoldable put_control : WorkerControl → List WorkerControl → List WorkerControl
put_control c [] = c ∷ []
put_control c (d ∷ rows) =
    if same d.identifier c.identifier then c ∷ rows else d ∷ put_control c rows

abbrev control_view : Option WorkerControl → ControlView
control_view none = record { paused = false; reason = none; changed_at = none }
control_view (some c) = record {
  paused = c.paused;
  reason = c.reason;
  changed_at = some c.changed_at;
}

unfoldable read_control : List WorkerControl → ControlView
unfolding control_at
read_control rows = control_view (control_at worker_control_id rows)

abbrev pub changed : ControlChange → Time → WorkerControl
changed change now = record {
  identifier = worker_control_id;
  paused = change.paused;
  reason = change.reason;
  changed_at = now;
}

-- The row that is loaded, or a new one, has all its other columns set.
unfoldable change_control :
    ControlChange → Time → List WorkerControl → ControlView × List WorkerControl
unfolding put_control
change_control change now rows =
    let c = changed change now in (control_view (some c), put_control c rows)

-- `Worker.paused`
abbrev is_paused_by : Option WorkerControl → Bool
is_paused_by none = false
is_paused_by (some c) = c.paused

unfoldable worker_is_paused : List WorkerControl → Bool
unfolding control_at
worker_is_paused rows = is_paused_by (control_at worker_control_id rows)

control_at-put_control :
    (c : WorkerControl) (rows : List WorkerControl)
    → control_at c.identifier (put_control c rows) ≡ some c
unfolding control_at put_control
control_at-put_control c [] = simp (eq_refl)
control_at-put_control c (d ∷ rows) =
    ground (arith, eq_refl c.identifier, control_at-put_control c rows)

-- What was asked for last is what the route and the worker read: whether to pause, and why.
change_control-read :
    (change : ControlChange) (now : Time) (rows : List WorkerControl)
    → let (view, rows') = change_control change now rows in
      (read_control rows' ≡ view) × (worker_is_paused rows' ≡ change.paused)
unfolding change_control read_control worker_is_paused
change_control-read change now rows =
    rw (control_at-put_control (changed change now) rows) (refl, refl)
