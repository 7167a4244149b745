-- ===== src/Transcript/Policy.antt =====
-- Which tracks are candidates: those in the video's own language, and never a translation.
use Prim.Native.String.{◌++◌ as ◌then◌}
use Prim.Native.String.append.{nil, cons}
use text.Mathlib.TextPositions.{eq_refl}
use yt_scrapper.Base.{
  String, Bool, true, false, Option, none, some, List, [], ◌∷◌, ◌++◌, contains, select, same, All,
  All-mono, ◌≡◌, refl, sym, ap, ◌∙◌, subst, arith, eq_iff, inl, inr, Bool-cases,
}
use yt_scrapper.Texts.{remove_suffix}
use yt_scrapper.Errors.{ok, Message}
use yt_scrapper.Transcript.{
  RawTrack, Bucket, Dump, CaptionTrack, original_suffix, is_translation, primary_of, json3_track,
  tracks_of, track_at, track, video_language, keys_of, is_regional, matching_keys, with_track,
  tracks_at, tracks_in, tracks_in_each, languages_of, or_none, no_track_message,
  caption_track_candidates,
}
use yt_scrapper.Texts.{is_before, insert, sorted_texts}
use yt_scrapper.Base.{append-nil, All-append}

primary_of-remove_suffix :
    (s : String) → primary_of (remove_suffix original_suffix s) ≡ primary_of s
unfolding primary_of remove_suffix
primary_of-remove_suffix String.[] = refl
primary_of-remove_suffix (String.◌∷◌ c s) = elim (Bool-cases (same (String.◌∷◌ c s) "-orig")) [
  | inl e ↦
      let suffix : String.◌∷◌ c s ≡ "-orig" = (eq_iff (String.◌∷◌ c s) "-orig").0 e in
      rw e (sym (ap primary_of suffix))
  | inr e ↦ rw e (ground (arith, primary_of-remove_suffix s))
]

primary_of-then : (s : String) → primary_of (s then original_suffix) ≡ primary_of s
unfolding primary_of
primary_of-then String.[] = λ i. primary_of (nil "-orig" i)
primary_of-then (String.◌∷◌ c s) =
    (λ i. primary_of (cons c s "-orig" i)) ∙ ground (arith, primary_of-then s)

-- A key of the language, by its primary part.
abbrev IsOf : String → String → Type 0
IsOf language key = primary_of key ≡ primary_of language

All-select :
    (P : String → Type 0) (p : String → Bool) (ks : List String)
    → ((k : String) → p k ≡ true → P k)
    → All P (select p ks)
All-select P p [] h = tt
All-select P p (k ∷ ks) h = elim (Bool-cases (p k)) [
  | inl e ↦ rw e (h k e, All-select P p ks h)
  | inr e ↦ rw e (All-select P p ks h)
]

All-insert :
    (P : String → Type 0) (k : String) (ks : List String) → P k → All P ks → All P (insert k ks)
unfolding insert
All-insert P k [] p h = (p, tt)
All-insert P k (l ∷ ls) p h = elim (Bool-cases (is_before k l)) [
  | inl e ↦ rw e (p, h)
  | inr e ↦ rw e (h.0, All-insert P k ls p h.1)
]

All-sorted_texts : (P : String → Type 0) (ks : List String) → All P ks → All P (sorted_texts ks)
unfolding sorted_texts
All-sorted_texts P [] h = tt
All-sorted_texts P (k ∷ ks) h = All-insert P k (sorted_texts ks) h.0 (All-sorted_texts P ks h.1)

matching_keys-IsOf :
    (bucket : Bucket) (language : String) → All (IsOf language) (matching_keys bucket language)
unfolding matching_keys
matching_keys-IsOf bucket language =
    let keys = keys_of bucket in
    let exact = select (λ k. same k language) keys in
    All-append (IsOf language) exact (sorted_texts (select (is_regional language exact) keys))
      (All-select (IsOf language) (λ k. same k language) keys
        (λ k e. ap primary_of ((eq_iff k language).0 e)))
      (All-sorted_texts (IsOf language) (select (is_regional language exact) keys) (
        All-select (IsOf language) (is_regional language exact) keys
          (λ k e. (eq_iff (primary_of k) (primary_of language)).0 (ground (arith, e)))))

-- A track in a language, which is no translation, of one of the two tiers.
abbrev IsOwn : String → Bool → CaptionTrack → Type 0
IsOwn language is_automatic t =
    (primary_of t.language ≡ primary_of language)
    × (is_translation t.url ≡ false)
    × (t.is_automatic ≡ is_automatic)

tracks_at-IsOwn :
    (bucket : Bucket) (language : String) (is_automatic : Bool) (ks : List String)
    → All (IsOf language) ks
    → All (IsOwn language is_automatic) (tracks_at bucket is_automatic ks)
unfolding tracks_at track
tracks_at-IsOwn bucket language is_automatic [] h = tt
tracks_at-IsOwn bucket language is_automatic (k ∷ ks) h =
    go (json3_track (tracks_of k bucket)) (tracks_at-IsOwn bucket language is_automatic ks h.1)
  where
    go :
        (o : Option (RawTrack × String))
        → All (IsOwn language is_automatic) (tracks_at bucket is_automatic ks)
        → All
            (IsOwn language is_automatic)
            (with_track (track_at k is_automatic o) (tracks_at bucket is_automatic ks))
    go none rest = rest
    go (some (t, url)) rest = elim (Bool-cases (is_translation url)) [
      | inl e ↦ rw e rest
      | inr e ↦ rw e ((primary_of-remove_suffix k ∙ h.0, e, refl), rest)
    ]

-- What a person wrote comes before what was transcribed.
abbrev pub IsRanked : List CaptionTrack → Type 0
IsRanked [] = Unit {0}
IsRanked (t ∷ ts) = (t.is_automatic ≡ true → All (λ u. u.is_automatic ≡ true) ts) × IsRanked ts

automatic-IsRanked : (ts : List CaptionTrack) → All (λ t. t.is_automatic ≡ true) ts → IsRanked ts
automatic-IsRanked [] h = tt
automatic-IsRanked (t ∷ ts) h = ((λ e. h.1), automatic-IsRanked ts h.1)

append-IsRanked :
    (xs ys : List CaptionTrack)
    → All (λ t. t.is_automatic ≡ false) xs
    → All (λ t. t.is_automatic ≡ true) ys
    → IsRanked (xs ++ ys)
append-IsRanked [] ys h h' = automatic-IsRanked ys h'
append-IsRanked (x ∷ xs) ys h h' = ((λ e. absurd (cc (e, h.0))), append-IsRanked xs ys h.1 h')

-- A track in a language that is no translation.
abbrev IsIn : String → CaptionTrack → Type 0
IsIn language t = (primary_of t.language ≡ primary_of language) × (is_translation t.url ≡ false)

module _ (d : Dump) (language : String) where
  abbrev written : List CaptionTrack
  written = tracks_at d.subtitles false (matching_keys d.subtitles language)

  abbrev transcribed : List CaptionTrack
  transcribed =
      tracks_at d.automatic_captions true
        ((language then original_suffix) ∷ matching_keys d.automatic_captions language)

  written-IsOwn : All (IsOwn language false) written
  written-IsOwn =
      tracks_at-IsOwn d.subtitles language false (matching_keys d.subtitles language)
        (matching_keys-IsOf d.subtitles language)

  transcribed-IsOwn : All (IsOwn language true) transcribed
  transcribed-IsOwn =
      tracks_at-IsOwn d.automatic_captions language true
        ((language then original_suffix) ∷ matching_keys d.automatic_captions language)
        (primary_of-then language, matching_keys-IsOf d.automatic_captions language)

  tracks_in-IsIn : All (IsIn language) (tracks_in d language)
  unfolding tracks_in
  tracks_in-IsIn =
      All-append (IsIn language) written transcribed
        (All-mono written (λ t h. (h.0, h.1)) written-IsOwn)
        (All-mono transcribed (λ t h. (h.0, h.1)) transcribed-IsOwn)

  tracks_in-IsRanked : IsRanked (tracks_in d language)
  unfolding tracks_in
  tracks_in-IsRanked =
      append-IsRanked written transcribed (All-mono written (λ t h. h.2) written-IsOwn)
        (All-mono transcribed (λ t h. h.2) transcribed-IsOwn)

-- One of the languages that may be served.
abbrev pub IsServed : List String → CaptionTrack → Type 0
IsServed languages t = (l : String) × (contains l languages ≡ true) × IsIn l t

tracks_in_each-IsServed :
    (d : Dump) (all ls : List String)
    → All (λ l. contains l all ≡ true) ls
    → All (IsServed all) (tracks_in_each d ls)
unfolding tracks_in_each
tracks_in_each-IsServed d all [] h = tt
tracks_in_each-IsServed d all (l ∷ ls) h =
    All-append (IsServed all) (tracks_in d l) (tracks_in_each d ls)
      (All-mono (tracks_in d l) (λ t own. (l, h.0, own)) (tracks_in-IsIn d l))
      (tracks_in_each-IsServed d all ls h.1)

contains_self : (ls : List String) → All (λ l. contains l ls ≡ true) ls
contains_self [] = tt
contains_self (l ∷ ls) =
    (ground (arith, eq_refl l), All-mono ls (λ k h. ground (arith, h)) (contains_self ls))

or_none-ok :
    (m : Message) (found : List CaptionTrack) {ts : List CaptionTrack}
    → or_none m found ≡ ok ts
    → found ≡ ts
or_none-ok m [] h = cc
or_none-ok m (t ∷ found) h = cc

-- Every candidate is in the video's own language, or, where nothing says what that is, in one of
-- the fallback languages, by the primary part of its tag; none is a translation; and where the
-- language is known, what a person wrote comes before what was transcribed.
pub caption_track_candidates-IsServed :
    (d : Dump) (fallback : List String) {ts : List CaptionTrack}
    → caption_track_candidates d fallback ≡ ok ts
    → All (IsServed (languages_of (video_language d) fallback)) ts
      × ((l : String) → video_language d ≡ some l → IsRanked ts)
unfolding caption_track_candidates
caption_track_candidates-IsServed d fallback {ts} h =
    let ls = languages_of (video_language d) fallback in
    let found = or_none-ok (no_track_message d fallback) (tracks_in_each d ls) h in
    (
      subst (All (IsServed ls)) found (tracks_in_each-IsServed d ls ls (contains_self ls)),
      λ l e.
          let only : tracks_in d l ≡ ts =
            sym (append-nil (tracks_in d l))
            ∙ ap (λ o. tracks_in_each d (languages_of o fallback)) (sym e)
            ∙ found in
          subst IsRanked only (tracks_in-IsRanked d l),
    )
