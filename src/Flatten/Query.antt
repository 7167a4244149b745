-- ===== src/Flatten/Query.antt =====
-- The rows of the index that a pass reads next. The order of identifiers is an argument.
use yt_scrapper.Base.{ℕ, ◌+◌, String, Bool, Option, List, Time, ltb, ◌&&◌, select, take}
use yt_scrapper.Artifacts.{Artifact}
use yt_scrapper.Keyset.{Cursor, precedes, is_after, ordered as ordered_by}
use yt_scrapper.Flatten.Work.{Payload}

-- Five minutes.
abbrev safety_lag : Time
safety_lag = 300000000

-- What one time round the loop meets.
pub record Batch : Type 0 where
  pub index : List Artifact
  pub now : Time
  pub read : String → Payload

abbrev pub key_of : Artifact → Cursor
key_of a = (a.fetched_at, a.identifier)

-- A row is old enough for a pass.
abbrev pub is_settled : Time → Artifact → Bool
is_settled now a = ltb (a.fetched_at + safety_lag) now

module _ (earlier : String → String → Bool) where
  -- The WHERE of `_batch_query`.
  abbrev pub is_due : Time → Option Cursor → Artifact → Bool
  is_due now cursor a = is_settled now a && is_after key_of (precedes earlier) cursor a

  -- `ORDER BY fetched_at, identifier`
  abbrev pub ordered : List Artifact → List Artifact
  ordered = ordered_by key_of (precedes earlier)

  -- `_read_batch`
  unfoldable pub read_batch : Batch → Option Cursor → ℕ → List Artifact
  unfolding ordered_by
  read_batch b cursor size = take size (ordered (select (is_due b.now cursor) b.index))
