-- ===== src/Transcript.antt =====
-- src/tubedepth/sources/transcript.py: which caption tracks are tried, in which order, and what the
-- body of one is read as. A dump has the shape that yt-dlp gives it; what is missing is empty.
pub mod Policy
pub mod Body
pub mod Fetched
use Prim.Native.Char.{code}
use Prim.Native.String.{◌++◌ as ◌then◌}
use yt_scrapper.Base.{
  String, Bool, true, false, not, ◌&&◌, ◌||◌, ◌==◌, Option, none, some, List, [], ◌∷◌, ◌++◌, any,
  contains, select, map, same, if◌then◌else◌,
}
use yt_scrapper.Texts.{ends_with, remove_suffix, starts_with}
use yt_scrapper.Errors.{Result, ok, err, Message, text, not_found, no_track_in, no_fallback_track}
use yt_scrapper.Texts.{is_filled, sorted_texts}

-- A track, as the dump lists it.
pub record RawTrack : Type 0 where
  pub ext : Option String
  pub url : Option String
  pub name : Option String

-- A dictionary of tracks by language, in its order.
abbrev pub Bucket : Type 0
Bucket = List (String × List RawTrack)

pub record Dump : Type 0 where
  pub language : Option String
  pub subtitles : Bucket
  pub automatic_captions : Bucket

pub record CaptionTrack : Type 0 where
  pub language : String
  pub name : Option String
  pub is_automatic : Bool
  pub url : String

abbrev caption_format : String
caption_format = "json3"

abbrev pub original_suffix : String
original_suffix = "-orig"

abbrev pub fallback_languages : List String
fallback_languages = "ko" ∷ "en" ∷ []

abbrev live_chat_key : String
live_chat_key = "live_chat"

-- `TRANSLATION_MARKER in url`
unfoldable pub is_translation : String → Bool
is_translation String.[] = false
is_translation (String.◌∷◌ c s) = starts_with "tlang=" (String.◌∷◌ c s) || is_translation s

-- `language.partition("-")[0]`
unfoldable pub primary_of : String → String
primary_of String.[] = ""
primary_of (String.◌∷◌ c s) =
    let rest = primary_of s in if code c == b'-' then "" else String.◌∷◌ c rest

-- The address of a track that has the format and an address.
abbrev address_of : RawTrack → Option String
address_of t = elim t.ext [
  | none ↦ none
  | some ext ↦
      if same ext caption_format
      then (elim t.url [ none ↦ none | some url ↦ if is_filled url then some url else none ])
      else none
]

-- `_json3_track`, with the address that it has.
unfoldable pub json3_track : List RawTrack → Option (RawTrack × String)
json3_track [] = none
json3_track (t ∷ ts) = elim (address_of t) [ some url ↦ some (t, url) | none ↦ json3_track ts ]

-- `bucket.get(key)`
unfoldable pub tracks_of : String → Bucket → List RawTrack
tracks_of key [] = []
tracks_of key ((k, ts) ∷ bucket) = if same k key then ts else tracks_of key bucket

abbrev pub track_at : String → Bool → Option (RawTrack × String) → Option CaptionTrack
track_at key is_automatic none = none
track_at key is_automatic (some (t, url)) =
    if is_translation url
    then none
    else some (record {
      language = remove_suffix original_suffix key;
      name = t.name;
      is_automatic = is_automatic;
      url = url;
    })

-- `_track`
unfoldable pub track : Bucket → String → Bool → Option CaptionTrack
unfolding json3_track tracks_of is_translation remove_suffix
track bucket key is_automatic = track_at key is_automatic (json3_track (tracks_of key bucket))

abbrev pub keys_of : Bucket → List String
keys_of bucket = map (λ b. b.0) bucket

-- `_caption_languages`, as far as whether there is one.
unfoldable has_captions : Dump → Bool
has_captions d =
    any (λ k. not (same k live_chat_key)) (keys_of d.subtitles ++ keys_of d.automatic_captions)

unfoldable original_language : List String → Option String
unfolding ends_with remove_suffix
original_language [] = none
original_language (k ∷ ks) =
    if ends_with original_suffix k
    then some (remove_suffix original_suffix k)
    else original_language ks

abbrev language_or : Option String → Option String → Option String
language_or none original = original
language_or (some l) original = if is_filled l then some l else original

unfoldable pub video_language : Dump → Option String
unfolding original_language
video_language d = language_or d.language (original_language (keys_of d.automatic_captions))

abbrev pub is_regional : String → List String → String → Bool
is_regional language exact key =
    not (contains key exact)
    && (not (ends_with original_suffix key) && same (primary_of key) (primary_of language))

-- `_matching_keys`
unfoldable pub matching_keys : Bucket → String → List String
unfolding sorted_texts ends_with primary_of
matching_keys bucket language =
    let exact = select (λ k. same k language) (keys_of bucket) in
    exact ++ sorted_texts (select (is_regional language exact) (keys_of bucket))

-- The tracks of some keys that there are.
abbrev pub with_track : Option CaptionTrack → List CaptionTrack → List CaptionTrack
with_track none rest = rest
with_track (some t) rest = t ∷ rest

unfoldable pub tracks_at : Bucket → Bool → List String → List CaptionTrack
unfolding track
tracks_at bucket is_automatic [] = []
tracks_at bucket is_automatic (k ∷ ks) =
    with_track (track bucket k is_automatic) (tracks_at bucket is_automatic ks)

-- The body of the loop over languages.
unfoldable pub tracks_in : Dump → String → List CaptionTrack
unfolding matching_keys tracks_at
tracks_in d language =
    tracks_at d.subtitles false (matching_keys d.subtitles language)
    ++ tracks_at d.automatic_captions true
        ((language then original_suffix) ∷ matching_keys d.automatic_captions language)

unfoldable pub tracks_in_each : Dump → List String → List CaptionTrack
unfolding tracks_in
tracks_in_each d [] = []
tracks_in_each d (l ∷ ls) = tracks_in d l ++ tracks_in_each d ls

abbrev pub languages_of : Option String → List String → List String
languages_of none fallback = fallback
languages_of (some l) fallback = l ∷ []

abbrev language_message : Option String → List String → Message
language_message none fallback = no_fallback_track fallback
language_message (some l) fallback = no_track_in l

-- `_no_track_message`
unfoldable pub no_track_message : Dump → List String → Message
unfolding has_captions video_language
no_track_message d fallback =
    if has_captions d
    then language_message (video_language d) fallback
    else text "the video has no caption tracks at all"

abbrev pub or_none : Message → List CaptionTrack → Result (List CaptionTrack)
or_none m [] = err not_found m
or_none m (t ∷ ts) = ok (t ∷ ts)

unfoldable pub caption_track_candidates : Dump → List String → Result (List CaptionTrack)
unfolding tracks_in_each video_language no_track_message
caption_track_candidates d fallback =
    or_none (no_track_message d fallback)
      (tracks_in_each d (languages_of (video_language d) fallback))
