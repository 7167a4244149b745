-- ===== src/Flatten/Work.antt =====
-- src/tubedepth/flatten.py: from the payload of an artifact to its statements.
use yt_scrapper.Base.{
  ℕ, ◌+◌, String, Bool, true, false, Option, none, some, List, [], ◌∷◌, ◌++◌, same, ◌>>=◌,
  if◌then◌else◌,
}
use yt_scrapper.Json.{Json, object, Members, end, member, get_member}
use yt_scrapper.Artifacts.{Artifact}
use yt_scrapper.Flatten.Rows.{Calendar, Observation}
use yt_scrapper.Flatten.Transforms.{
  video_snapshot_row, listing_entry_rows, channel_snapshot_row, comment_rows, transcript_row,
}
use yt_scrapper.Flatten.Tables.{
  Statement, insert_video_snapshots, insert_listing_entries, insert_channel_snapshots,
  insert_comments, insert_transcripts,
}

pub data Handler : Type 0 where
  videos listings channels comments transcripts : Handler

-- `_HANDLERS`
abbrev handlers : List (String × Handler)
handlers =
    ("video.metadata", videos)
    ∷ ("search.videos", listings)
    ∷ ("channel.videos", listings)
    ∷ ("playlist.items", listings)
    ∷ ("trending.videos", listings)
    ∷ ("channel.about", channels)
    ∷ ("video.comments", comments)
    ∷ ("video.transcript", transcripts)
    ∷ []

unfoldable pub handler_in : String → List (String × Handler) → Option Handler
handler_in kind [] = none
handler_in kind ((k, h) ∷ hs) = if same k kind then some h else handler_in kind hs

abbrev bundle_kind : String
bundle_kind = "video.bundle"

-- What reading a payload and decoding it comes to: no file, text that does not decode, an exception
-- that no clause catches, or a value.
pub data Payload : Type 0 where
  missing undecodable failing : Payload
  decoded : Json → Payload

-- `_Flattened`
pub record Flattened : Type 0 where
  pub statements : List Statement
  pub is_handled : Bool
  pub unhandled_parts : ℕ

-- What `_flatten` comes to for an artifact.
pub data Work : Type 0 where
  prepared : Flattened → Work
  payload_missing refused crashed : Work

abbrev pub observation_of : Artifact → Observation
observation_of a = record {
  artifact_id = a.identifier;
  kind = a.kind;
  target = a.target;
  fetched_at = a.fetched_at;
}

module _ (calendar : Calendar) where
  -- An empty list of rows is no statement.
  abbrev statement_of {ℓ} : {A : Type ℓ} → (List A → Statement) → List A → List Statement
  statement_of make [] = []
  statement_of make (row ∷ rows) = make (row ∷ rows) ∷ []

  abbrev transform : Handler → Observation → Members → Option (List Statement)
  transform videos o payload = do
    row ← video_snapshot_row calendar o payload
    some (insert_video_snapshots (row ∷ []) ∷ [])
  transform listings o payload = do
    rows ← listing_entry_rows calendar o payload
    some (statement_of insert_listing_entries rows)
  transform channels o payload = do
    row ← channel_snapshot_row calendar o payload
    some (insert_channel_snapshots (row ∷ []) ∷ [])
  transform comments o payload = do
    rows ← comment_rows calendar o payload
    some (statement_of insert_comments rows)
  transform transcripts o payload = do
    row ← transcript_row calendar o payload
    some (insert_transcripts (row ∷ []) ∷ [])

  -- `_route`: the statements with those that it appends, and whether the kind is handled.
  abbrev routed :
      Option Handler → Observation → Members → List Statement → Option (List Statement × Bool)
  routed none o payload statements = some (statements, false)
  routed (some h) o payload statements = do
    appended ← transform h o payload
    some (statements ++ appended, true)

  unfoldable pub route : Observation → Members → List Statement → Option (List Statement × Bool)
  route o payload statements = routed (handler_in o.kind handlers) o payload statements

  abbrev with_part : Flattened → List Statement × Bool → Flattened
  with_part f (statements, true) = record f { statements = statements; is_handled = true }
  with_part f (statements, false) = record f {
    statements = statements;
    unhandled_parts = f.unhandled_parts + 1;
  }

  -- One part of a bundle, under the bundle's identity and its own kind.
  abbrev flatten_part : Observation → String → Json → Flattened → Option Flattened
  flatten_part o kind (object part) f = do
    r ← route (record o { kind = kind }) part f.statements
    some (with_part f r)
  flatten_part o kind _ f = none

  unfoldable pub flatten_parts : Observation → Members → Flattened → Option Flattened
  unfolding route
  flatten_parts o end f = some f
  flatten_parts o (member kind part rest) f = flatten_part o kind part f >>= flatten_parts o rest

  abbrev bundle_of : Observation → Json → Option Flattened
  bundle_of o (object parts) =
      flatten_parts o parts (record { statements = []; is_handled = false; unhandled_parts = 0 })
  bundle_of o _ = none

  abbrev single_of : List Statement × Bool → Flattened
  single_of (statements, is_handled) = record {
    statements = statements;
    is_handled = is_handled;
    unhandled_parts = 0;
  }

  abbrev flatten_payload : Observation → Members → Option Flattened
  flatten_payload o payload =
      if same o.kind bundle_kind
      then bundle_of o (get_member "parts" payload)
      else (do r ← route o payload []; some (single_of r))

  abbrev work_of : Option Flattened → Work
  work_of none = refused
  work_of (some f) = prepared f

  abbrev pub work_on : Observation → Payload → Work
  work_on o missing = payload_missing
  work_on o undecodable = refused
  work_on o failing = crashed
  work_on o (decoded (object payload)) = work_of (flatten_payload o payload)
  work_on o (decoded _) = refused

  -- `_flatten`
  unfoldable pub flatten : (String → Payload) → Artifact → Work
  unfolding flatten_parts route
  flatten read a = work_on (observation_of a) (read a.digest)
