-- ===== src/Tests/Captions.antt =====
-- A video in Korean: its written track is refused, its own transcription is served, and the
-- translations are never asked for.
use yt_scrapper.Base.{
  ℕ, String, true, false, Option, none, some, List, [], ◌∷◌, All, same, if◌then◌else◌, ◌≡◌, refl,
}
use yt_scrapper.Errors.{ok, upstream, text}
use yt_scrapper.Collection.State.{Attempt, returned, raised}
use yt_scrapper.Transcript.{
  RawTrack, Dump, CaptionTrack, fallback_languages, video_language, languages_of,
  caption_track_candidates,
}
use yt_scrapper.Transcript.Policy.{IsServed, IsRanked, caption_track_candidates-IsServed}
use yt_scrapper.Transcript.Body.{Event, Transcript, collect_transcript}
use yt_scrapper.Transcript.Fetched.{IsCollected, collect_transcript-IsFirst}

abbrev raw : String → RawTrack
raw url = record { ext = some "json3"; url = some url; name = none }

abbrev dump : Dump
dump = record {
  language = none;
  subtitles =
      ("live_chat", raw "chat" ∷ [])
      ∷ ("ko-KR", raw "written" ∷ [])
      ∷ ("fr", raw "autre" ∷ [])
      ∷ [];
  automatic_captions =
      ("en", raw "u?tlang=en" ∷ [])
      ∷ ("ko-orig", raw "heard" ∷ [])
      ∷ ("ko", raw "u?tlang=ko" ∷ [])
      ∷ [];
}

abbrev written : CaptionTrack
written = record { language = "ko-KR"; name = none; is_automatic = false; url = "written" }

abbrev heard : CaptionTrack
heard = record { language = "ko"; name = none; is_automatic = true; url = "heard" }

candidates-dump : caption_track_candidates dump fallback_languages ≡ ok (written ∷ heard ∷ [])
unfolding caption_track_candidates
candidates-dump = refl

caption_track_candidates-IsServed_example :
    All (IsServed (languages_of (video_language dump) fallback_languages)) (written ∷ heard ∷ [])
    × ((l : String) → video_language dump ≡ some l → IsRanked (written ∷ heard ∷ []))
caption_track_candidates-IsServed_example =
    caption_track_candidates-IsServed dump fallback_languages candidates-dump

abbrev extract : String → Attempt Dump
extract target = returned dump

abbrev fetch : String → Attempt String
fetch url = if same url "heard" then returned "body" else raised upstream (text "refused")

abbrev loads : String → Option (List Event)
loads body =
    some (record { segs = some "a" ∷ some "b" ∷ []; start_ms = some 5; duration_ms = none } ∷ [])

abbrev heard_transcript : Transcript ℕ
heard_transcript = record {
  language = "ko";
  name = none;
  is_automatic = true;
  segments = record { start_seconds = 5; duration_seconds = 0; text = "ab" } ∷ [];
  full_text = "ab";
}

collect-dump :
    collect_transcript (λ n. n) (λ s. same s "") fetch loads extract fallback_languages "v"
    ≡ returned heard_transcript
unfolding collect_transcript
collect-dump = refl

collect_transcript-IsFirst_example :
    IsCollected
      (λ n. n)
      (λ s. same s "")
      fetch
      loads
      extract
      fallback_languages
      "v"
      heard_transcript
collect_transcript-IsFirst_example =
    collect_transcript-IsFirst (λ n. n) (λ s. same s "") fetch loads extract fallback_languages "v"
      collect-dump
