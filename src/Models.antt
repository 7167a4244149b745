-- ===== src/Models.antt =====
-- src/tubedepth/models.py: the rows of the `jobs` table, and the two ways a session reaches them.
pub mod Rows
use yt_scrapper.Base.{
  ℕ, suc, String, Bool, true, false, Option, none, some, List, [], ◌∷◌, Time, same, if◌then◌else◌,
}
use yt_scrapper.Errors.{ErrorClass, Message}

pub data JobState : Type 0 where
  queued running succeeded failed cancelled : JobState

-- `job.error_code`: the name of an error's class, or the reaper's own code.
pub data ErrorCode : Type 0 where
  class_name : ErrorClass → ErrorCode
  lease_expired : ErrorCode

pub record Job : Type 0 where
  pub identifier : String
  pub kind : String
  pub target : String
  pub follow_up_kind : Option String
  pub refresh : Bool
  pub api_key_id : Option String
  pub state : JobState
  pub attempt_count : ℕ
  pub max_attempts : ℕ
  pub scheduled_at : Time
  pub created_at : Time
  pub claimed_by : Option String
  pub lease_expires_at : Option Time
  pub finished_at : Option Time
  pub cancel_requested_at : Option Time
  pub webhook_url : Option String
  pub webhook_attempts : ℕ
  pub webhook_delivered_at : Option Time
  pub payload_digest : Option String
  pub payload_bytes : Option ℕ
  pub error_code : Option ErrorCode
  pub error_message : Option Message

abbrev pub Jobs : Type 0
Jobs = List Job

abbrev pub is_queued : JobState → Bool
is_queued queued = true
is_queued _ = false

abbrev pub is_running : JobState → Bool
is_running running = true
is_running _ = false

-- `TERMINAL_STATES` of repositories.py, and `TERMINAL` of webhooks.py.
abbrev pub is_terminal : JobState → Bool
is_terminal succeeded = true
is_terminal failed = true
is_terminal cancelled = true
is_terminal _ = false

-- `session.get(Job, identifier)`
unfoldable pub get : String → Jobs → Option Job
get k [] = none
get k (j ∷ js) = if same j.identifier k then some j else get k js

-- `UPDATE jobs SET ... WHERE p`, with the number of rows that it matched.
unfoldable pub update_where : (Job → Bool) → (Job → Job) → Jobs → ℕ × Jobs
update_where p f [] = (0, [])
update_where p f (j ∷ js) =
    let rest = update_where p f js in
    if p j then (suc rest.0, f j ∷ rest.1) else (rest.0, j ∷ rest.1)

-- What a session writes back for the one object that it loaded and changed.
unfoldable pub modify : String → (Job → Job) → Jobs → Jobs
unfolding update_where
modify k f js = (update_where (λ j. same j.identifier k) f js).1
