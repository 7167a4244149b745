-- ===== src/Identifiers.antt =====
-- src/tubedepth/identifiers.py: what a caller pasted, as the identifier that YouTube uses. The
-- parsers of addresses and the operations on whole texts are those of the standard library.
pub mod Again
use Prim.Native.Char.{Char, code}
use Prim.Native.String.{count}
use yt_scrapper.Base.{
  ℕ, String, Bool, true, false, not, ◌&&◌, ◌||◌, ◌==◌, Option, none, some, List, [], ◌∷◌, leb,
  select, same, if◌then◌else◌,
}
use yt_scrapper.Texts.{ends_with, starts_with, split_path, strip_slashes}
use yt_scrapper.Errors.{Message, validation, not_valid, text}
use yt_scrapper.Registry.{TargetType, video, channel, playlist, query, region}
use yt_scrapper.Collection.State.{Attempt, returned, raised, crashed}
use yt_scrapper.Texts.{is_filled}

pub record Url : Type 0 where
  pub scheme : String
  pub netloc : String
  pub path : String
  pub query : String

-- `urlparse` is none for its `ValueError`; `first_value` is `parse_qs(query).get(key, [""])[0]`.
pub record Parsers : Type 0 where
  pub urlparse : String → Option Url
  pub first_value : String → String → String
  pub strip : String → String
  pub upper : String → String
  pub is_alpha : String → Bool

abbrev is_between : ℕ → ℕ → ℕ → Bool
is_between low high n = leb low n && leb n high

-- `[A-Za-z0-9_-]`
abbrev pub is_word : Char → Bool
is_word c =
    is_between 65 90 (code c)
    || (is_between 97 122 (code c)
        || (is_between 48 57 (code c) || (code c == b'_' || code c == b'-')))

-- `[A-Za-z0-9_.-]`
abbrev pub is_handle_char : Char → Bool
is_handle_char c = is_word c || code c == b'.'

abbrev pub all_of : (Char → Bool) → String → Bool
all_of p String.[] = true
all_of p (String.◌∷◌ c s) = p c && all_of p s

abbrev pub is_video_identifier : String → Bool
is_video_identifier s = count s == 11 && all_of is_word s

abbrev pub is_channel_identifier : String → Bool
is_channel_identifier s = starts_with "UC" s && (count s == 24 && all_of is_word s)

abbrev pub is_channel_handle : String → Bool
is_channel_handle String.[] = false
is_channel_handle (String.◌∷◌ c s) =
    code c == b'@' && (is_between 3 30 (count s) && all_of is_handle_char s)

abbrev pub is_channel : String → Bool
is_channel s = is_channel_identifier s || is_channel_handle s

abbrev pub is_playlist_identifier : String → Bool
is_playlist_identifier s = is_between 12 64 (count s) && all_of is_word s

-- The candidate, if the test accepts it.
abbrev pub checked : (String → Bool) → Message → String → Attempt String
checked p m candidate = if p candidate then returned candidate else raised validation m

-- `parsed.path.split("/")[2]`, of a path that starts with a slash, a word and a slash.
abbrev third : List String → String
third (a ∷ b ∷ c ∷ rest) = c
third _ = ""

abbrev is_embedded : String → Bool
is_embedded path =
    starts_with "/shorts/" path
    || (starts_with "/embed/" path || (starts_with "/live/" path || starts_with "/v/" path))

abbrev channel_of : List String → String
channel_of [] = ""
channel_of (a ∷ []) = a
channel_of (a ∷ b ∷ rest) = if same a "channel" then b else a

module _ (library : Parsers) where
  open library use {urlparse, first_value, strip, upper, is_alpha}

  abbrev pub video_candidate : String → Url → String
  video_candidate value u =
      if not (is_filled u.scheme)
      then value
      else (if ends_with "youtu.be" u.netloc
          then strip_slashes u.path
          else (if is_embedded u.path then third (split_path u.path) else first_value "v" u.query))

  abbrev pub channel_candidate : String → Url → String
  channel_candidate value u =
      if is_filled u.scheme then channel_of (select is_filled (split_path u.path)) else value

  abbrev pub playlist_candidate : String → Url → String
  playlist_candidate value u = if is_filled u.scheme then first_value "list" u.query else value

  -- What follows the parser of addresses.
  abbrev pub of_url :
      (String → Url → String) → (String → Bool) → Message → String → Option Url → Attempt String
  of_url candidate p m value none = crashed
  of_url candidate p m value (some u) = checked p m (candidate value u)

  unfoldable normalize_video_identifier : String → Attempt String
  unfolding ends_with strip_slashes split_path
  normalize_video_identifier value =
      of_url video_candidate is_video_identifier (not_valid "video identifier" value) value
        (urlparse value)

  unfoldable normalize_channel_identifier : String → Attempt String
  unfolding split_path
  normalize_channel_identifier value =
      of_url channel_candidate is_channel (not_valid "channel identifier" value) value
        (urlparse value)

  unfoldable normalize_playlist_identifier : String → Attempt String
  normalize_playlist_identifier value =
      of_url playlist_candidate is_playlist_identifier (not_valid "playlist identifier" value) value
        (urlparse value)

  unfoldable normalize_search_query : String → Attempt String
  normalize_search_query value = checked is_filled (text "search query is empty") (strip value)

  abbrev pub is_region : String → Bool
  is_region s = count s == 2 && is_alpha s

  unfoldable normalize_region_code : String → Attempt String
  normalize_region_code value =
      checked is_region (not_valid "region code" value) (upper (strip value))

  unfoldable pub normalize_target : TargetType → String → Attempt String
  unfolding normalize_video_identifier normalize_channel_identifier normalize_playlist_identifier
      normalize_search_query normalize_region_code
  normalize_target video value = normalize_video_identifier value
  normalize_target channel value = normalize_channel_identifier value
  normalize_target playlist value = normalize_playlist_identifier value
  normalize_target query value = normalize_search_query value
  normalize_target region value = normalize_region_code value
