-- ===== src/Identifiers/Again.antt =====
-- What is normal stays as it is, so that every spelling of a target meets in one.
use Prim.Native.Char.{Char, code}
use yt_scrapper.Base.{
  String, Bool, true, false, ◌||◌, ◌==◌, Option, none, some, ◌≡◌, refl, sym, ap, subst, ◌∙◌, arith,
  inl, inr, Bool-cases,
}
use yt_scrapper.Errors.{Message, validation, not_valid, text}
use yt_scrapper.Registry.{TargetType, video, channel, playlist, query, region}
use yt_scrapper.Collection.State.{Attempt, returned, raised}
use yt_scrapper.Identifiers.{
  Url, Parsers, is_word, is_handle_char, all_of, is_video_identifier, is_channel_identifier,
  is_channel_handle, is_channel, is_playlist_identifier, checked, video_candidate,
  channel_candidate, playlist_candidate, of_url, is_region, normalize_target,
}
use yt_scrapper.Texts.{is_filled}

-- The characters of identifiers and handles, of which none ends a scheme.
abbrev pub is_plain : Char → Bool
is_plain c = is_handle_char c || code c == b'@'

-- What is documented: a text of such characters parses as an address without a scheme, and the
-- operations on whole texts have nothing left to do on what they gave.
pub record ParsersLaws (library : Parsers) : Type 0 where
  pub urlparse_plain :
      (s : String)
      → all_of is_plain s ≡ true
      → (u : Url) × (library.urlparse s ≡ some u) × (is_filled u.scheme ≡ false)
  pub strip_strip : (s : String) → library.strip (library.strip s) ≡ library.strip s
  pub strip_alpha : (s : String) → library.is_alpha s ≡ true → library.strip s ≡ s
  pub upper_upper : (s : String) → library.upper (library.upper s) ≡ library.upper s

all_of-plain : (s : String) → all_of is_word s ≡ true → all_of is_plain s ≡ true
all_of-plain String.[] h = refl
all_of-plain (String.◌∷◌ c s) h = ground (arith, h, all_of-plain s)

all_of-handle : (s : String) → all_of is_handle_char s ≡ true → all_of is_plain s ≡ true
all_of-handle String.[] h = refl
all_of-handle (String.◌∷◌ c s) h = ground (arith, h, all_of-handle s)

is_video_identifier-plain : (s : String) → is_video_identifier s ≡ true → all_of is_plain s ≡ true
is_video_identifier-plain s h = all_of-plain s (ground (arith, h))

is_playlist_identifier-plain :
    (s : String) → is_playlist_identifier s ≡ true → all_of is_plain s ≡ true
is_playlist_identifier-plain s h = all_of-plain s (ground (arith, h))

is_channel_handle-plain : (s : String) → is_channel_handle s ≡ true → all_of is_plain s ≡ true
is_channel_handle-plain String.[] h = refl
is_channel_handle-plain (String.◌∷◌ c s) h = ground (arith, h, all_of-handle s)

is_channel-plain : (s : String) → is_channel s ≡ true → all_of is_plain s ≡ true
is_channel-plain s h = elim (Bool-cases (is_channel_identifier s)) [
  | inl e ↦ all_of-plain s (ground (arith, e))
  | inr e ↦ is_channel_handle-plain s (ground (arith, e, h))
]

checked-returned :
    (p : String → Bool) (m : Message) (candidate : String) {c : String}
    → checked p m candidate ≡ returned c
    → (p candidate ≡ true) × (candidate ≡ c)
checked-returned p m candidate {c} h = elim (Bool-cases (p candidate)) [
  | inl e ↦ let q : Path (Attempt String) (returned candidate) (returned c) = rw e at h in (e, cc)
  | inr e ↦ absurd (not_returned (rw e at h))
]
  where
    not_returned : ¬ (Path (Attempt String) (raised validation m) (returned c))
    not_returned q = cc

module _ (library : Parsers) (laws : ParsersLaws library) where
  open laws use {urlparse_plain, strip_strip, strip_alpha, upper_upper}

  -- What an address was read as is accepted as it is: it is a text without a scheme.
  of_url-again :
      (candidate : String → Url → String) (p : String → Bool) (m : String → Message)
      (value : String) {c : String}
      → ((s : String) → p s ≡ true → all_of is_plain s ≡ true)
      → ((s : String) (u : Url) → is_filled u.scheme ≡ false → candidate s u ≡ s)
      → of_url library candidate p (m value) value (library.urlparse value) ≡ returned c
      → of_url library candidate p (m c) c (library.urlparse c) ≡ returned c
  of_url-again candidate p m value {c} plain bare h = go (library.urlparse value) h
    where
      go :
          (o : Option Url)
          → of_url library candidate p (m value) value o ≡ returned c
          → of_url library candidate p (m c) c (library.urlparse c) ≡ returned c
      go none q = cc
      go (some u) q =
          let (accepted, e) = checked-returned p (m value) (candidate value u) q in
          let good : p c ≡ true = subst (λ x. p x ≡ true) e accepted in
          let (u', parsed, unschemed) = urlparse_plain c (plain c good) in
          rw (parsed, bare c u' unschemed, good) refl

  -- A target that was normalised is normal: normalising it again, by its type, gives it back. A text
  -- of the characters of identifiers parses as an address without a scheme, and stripping a text
  -- and changing its case leave what they gave as it is.
  pub normalize_target-again :
      (target_type : TargetType) (value : String) {c : String}
      → normalize_target library target_type value ≡ returned c
      → normalize_target library target_type c ≡ returned c
  unfolding normalize_target
  normalize_target-again video value h =
      of_url-again (video_candidate library) is_video_identifier (not_valid "video identifier")
        value is_video_identifier-plain (λ s u e. rw e refl) h
  normalize_target-again channel value h =
      of_url-again (channel_candidate library) is_channel (not_valid "channel identifier") value
        is_channel-plain (λ s u e. rw e refl) h
  normalize_target-again playlist value h =
      of_url-again (playlist_candidate library) is_playlist_identifier
        (not_valid "playlist identifier") value is_playlist_identifier-plain (λ s u e. rw e refl) h
  normalize_target-again query value {c} h =
      let (filled, e) = checked-returned is_filled (text "search query is empty") _ h in
      let same_text : library.strip c ≡ c = ap library.strip (sym e) ∙ strip_strip value ∙ e in
      rw (same_text, subst (λ x. is_filled x ≡ true) e filled) refl
  normalize_target-again region value {c} h =
      let (good, e) =
        checked-returned (is_region library) (not_valid "region code" value)
          (library.upper (library.strip value)) h in
      let good_c : is_region library c ≡ true = subst (λ x. is_region library x ≡ true) e good in
      let alpha : library.is_alpha c ≡ true = ground arith in
      let stripped : library.strip c ≡ c = strip_alpha c alpha in
      let raised_case : library.upper c ≡ c =
        ap library.upper (sym e) ∙ upper_upper (library.strip value) ∙ e in
      rw (stripped, raised_case, good_c) refl
