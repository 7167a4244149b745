-- ===== src/Transcript/Body.antt =====
-- `parse_json3` and `TranscriptSource.collect`. What yt-dlp extracts (`extract`), what an address
-- answers (`fetch`) and the JSON reader (`loads`) are arguments, and so are the number of seconds of
-- a number of milliseconds and whether `strip` leaves anything of a text.
use Prim.Native.String.{◌++◌ as ◌then◌}
use yt_scrapper.Base.{ℕ, String, Bool, Option, none, some, List, [], ◌∷◌, map, if◌then◌else◌}
use yt_scrapper.Errors.{Result, ok, err, ErrorClass, Message, upstream, is_instance, domain}
use yt_scrapper.Collection.State.{Attempt, returned, raised, crashed}
use yt_scrapper.Transcript.{Dump, CaptionTrack, caption_track_candidates}

-- An event of a caption body: the texts of its parts, and its times in milliseconds.
pub record Event : Type 0 where
  pub segs : List (Option String)
  pub start_ms : Option ℕ
  pub duration_ms : Option ℕ

pub record TranscriptSegment (Seconds : Type 0) : Type 0 where
  pub start_seconds : Seconds
  pub duration_seconds : Seconds
  pub text : String

pub record Transcript (Seconds : Type 0) : Type 0 where
  pub language : String
  pub name : Option String
  pub is_automatic : Bool
  pub segments : List (TranscriptSegment Seconds)
  pub full_text : String

abbrev or_nothing : Option String → String
or_nothing none = ""
or_nothing (some s) = s

abbrev or_zero : Option ℕ → ℕ
or_zero none = 0
or_zero (some n) = n

-- `"".join(...)` over the parts of an event.
unfoldable text_of : List (Option String) → String
text_of [] = ""
text_of (s ∷ segs) = or_nothing s then text_of segs

abbrev and_line : String → String → List String → String
and_line line rest [] = line
and_line line rest (_ ∷ _) = line then ("\n" then rest)

-- `"\n".join(...)`
unfoldable join_lines : List String → String
join_lines [] = ""
join_lines (l ∷ ls) = and_line l (join_lines ls) ls

module _ {Seconds : Type 0} (seconds : ℕ → Seconds) (is_blank : String → Bool) where
  abbrev segment_of : Event → TranscriptSegment Seconds
  segment_of e = record {
    start_seconds = seconds (or_zero e.start_ms);
    duration_seconds = seconds (or_zero e.duration_ms);
    text = text_of e.segs;
  }

  -- An event without text is no caption.
  unfoldable segments_of : List Event → List (TranscriptSegment Seconds)
  unfolding text_of
  segments_of [] = []
  segments_of (e ∷ events) =
      let rest = segments_of events in
      if is_blank (text_of e.segs) then rest else segment_of e ∷ rest

  -- `parse_json3`
  unfoldable pub parse_json3 : List Event → CaptionTrack → Transcript Seconds
  unfolding segments_of join_lines
  parse_json3 events t = record {
    language = t.language;
    name = t.name;
    is_automatic = t.is_automatic;
    segments = segments_of events;
    full_text = join_lines (map (λ s. s.text) (segments_of events));
  }

  module _ (fetch : String → Attempt String) (loads : String → Option (List Event)) where
    abbrev pub parsed_body : CaptionTrack → Option (List Event) → Attempt (Transcript Seconds)
    parsed_body t none = crashed
    parsed_body t (some events) = returned (parse_json3 events t)

    abbrev pub last_error : Option (ErrorClass × Message) → Attempt (Transcript Seconds)
    last_error none = crashed
    last_error (some (c, m)) = raised c m

    -- One round: the answer of an address, and what the rest of the ranking comes to after an
    -- upstream error.
    abbrev pub tried :
        CaptionTrack
        → Attempt String
        → (Option (ErrorClass × Message) → Attempt (Transcript Seconds))
        → Attempt (Transcript Seconds)
    tried t (returned body) rest = parsed_body t (loads body)
    tried t (raised c m) rest =
        if is_instance upstream (domain c m) then rest (some (c, m)) else raised c m
    tried t crashed rest = crashed

    -- The walk over the ranking.
    unfoldable pub fetch_each :
        List CaptionTrack → Option (ErrorClass × Message) → Attempt (Transcript Seconds)
    unfolding parse_json3
    fetch_each [] last = last_error last
    fetch_each (t ∷ ts) last = tried t (fetch t.url) (fetch_each ts)

    abbrev pub candidates_fetched : Result (List CaptionTrack) → Attempt (Transcript Seconds)
    candidates_fetched (ok ts) = fetch_each ts none
    candidates_fetched (err c m) = raised c m

    abbrev pub from_dump : List String → Attempt Dump → Attempt (Transcript Seconds)
    from_dump fallback (returned d) = candidates_fetched (caption_track_candidates d fallback)
    from_dump fallback (raised c m) = raised c m
    from_dump fallback crashed = crashed

    -- `TranscriptSource.collect`
    unfoldable pub collect_transcript :
        (String → Attempt Dump) → List String → String → Attempt (Transcript Seconds)
    unfolding fetch_each caption_track_candidates
    collect_transcript extract fallback target = from_dump fallback (extract target)
