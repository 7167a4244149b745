-- ===== src/Webhooks.antt =====
-- src/tubedepth/webhooks.py: announcing finished jobs. The HTTP client and the HMAC are arguments.
pub mod Delivery
use yt_scrapper.Base.{
  ℕ, suc, ◌+◌, String, Bool, not, ◌&&◌, Option, some, [], ◌∷◌, Time, ltb, is_some, select,
  if◌then◌else◌,
}
use yt_scrapper.Models.{Job, Jobs, JobState, ErrorCode, is_terminal, modify}

abbrev default_maximum_attempts : ℕ
default_maximum_attempts = 8

-- What the body says of a job; `json.dumps` writes it out.
pub record Announcement : Type 0 where
  pub job_id : String
  pub kind : String
  pub target : String
  pub state : JobState
  pub error_code : Option ErrorCode
  pub payload_bytes : Option ℕ

unfoldable pub announcement : Job → Announcement
announcement j = record {
  job_id = j.identifier;
  kind = j.kind;
  target = j.target;
  state = j.state;
  error_code = j.error_code;
  payload_bytes = j.payload_bytes;
}

-- The WHERE of `deliver_pending`.
unfoldable pub is_owed : ℕ → Job → Bool
is_owed maximum j =
    is_some j.webhook_url
    && not (is_some j.webhook_delivered_at)
    && is_terminal j.state
    && ltb j.webhook_attempts maximum

abbrev pub settled_delivery : Bool → Time → Job → Job
settled_delivery succeeded now j =
    if succeeded
    then record j { webhook_attempts = j.webhook_attempts + 1; webhook_delivered_at = some now }
    else record j { webhook_attempts = j.webhook_attempts + 1 }

-- `_settle`
unfoldable pub settle_delivery : String → Bool → Time → Jobs → Jobs
settle_delivery k succeeded now js = modify k (settled_delivery succeeded now) js

-- The loop over what is pending. `send` says whether the receiver accepted an announcement; the
-- client raises nothing but its own `HTTPError`, which is a refusal. One reading of the clock
-- stands for those of a sweep.
unfoldable pub deliver_each : (Job → Bool) → Time → Jobs → ℕ × Jobs → ℕ × Jobs
unfolding settle_delivery
deliver_each send now [] acc = acc
deliver_each send now (j ∷ pending) (delivered, js) =
    deliver_each send now pending
      ((if send j then suc delivered else delivered), settle_delivery j.identifier (send j) now js)

-- `deliver_pending`
unfoldable pub deliver_pending : ℕ → (Announcement → Bool) → Time → Jobs → ℕ × Jobs
unfolding deliver_each is_owed announcement
deliver_pending maximum send now js =
    deliver_each (λ j. send (announcement j)) now (select (is_owed maximum) js) (0, js)
