-- ===== src/Transcript/Fetched.antt =====
-- What a collection returns: the first candidate that is served.
use yt_scrapper.Base.{
  ℕ, String, Bool, true, Option, none, some, List, [], ◌∷◌, ◌++◌, All, ◌≡◌, refl, ap, subst, inl,
  inr, Bool-cases,
}
use yt_scrapper.Errors.{Result, ok, err, ErrorClass, Message, upstream, is_instance, domain}
use yt_scrapper.Collection.State.{Attempt, returned, raised, crashed}
use yt_scrapper.Transcript.{
  Dump, CaptionTrack, video_language, languages_of, caption_track_candidates,
}
use yt_scrapper.Transcript.Policy.{IsServed, caption_track_candidates-IsServed}
use yt_scrapper.Transcript.Body.{
  Event, Transcript, parse_json3, parsed_body, tried, fetch_each, candidates_fetched, from_dump,
  collect_transcript,
}

module _ {Seconds : Type 0} (seconds : ℕ → Seconds) (is_blank : String → Bool)
    (fetch : String → Attempt String) (loads : String → Option (List Event)) where
  -- An address that is refused by an upstream error.
  abbrev IsRefused : CaptionTrack → Type 0
  IsRefused t =
      (c : ErrorClass) × (m : Message) × (fetch t.url ≡ raised c m)
      × (is_instance upstream (domain c m) ≡ true)

  -- That a transcript is the reading of the first track that is not refused.
  abbrev pub IsFirst : List CaptionTrack → Transcript Seconds → CaptionTrack → Type 0
  IsFirst ts answer t =
      (before : List CaptionTrack) × (after : List CaptionTrack) × (body : String) × (events : List
        Event)
      × (ts ≡ before ++ t ∷ after)
      × All IsRefused before
      × (fetch t.url ≡ returned body)
      × (loads body ≡ some events)
      × (answer ≡ parse_json3 seconds is_blank events t)

  -- That a transcript is of a candidate of what was extracted, and in a language that may be served.
  abbrev pub IsCollected :
      (String → Attempt Dump) → List String → String → Transcript Seconds → Type 0
  IsCollected extract fallback target answer =
      (d : Dump) × (ts : List CaptionTrack) × (t : CaptionTrack) × (extract target ≡ returned d)
      × (caption_track_candidates d fallback ≡ ok ts)
      × IsFirst ts answer t
      × IsServed (languages_of (video_language d) fallback) t
      × (answer.language ≡ t.language)
      × (answer.is_automatic ≡ t.is_automatic)

  parsed-returned :
      (t : CaptionTrack) (o : Option (List Event)) {answer : Transcript Seconds}
      → parsed_body seconds is_blank fetch loads t o ≡ returned answer
      → (events : List Event) × (o ≡ some events) × (answer ≡ parse_json3 seconds is_blank events t)
  parsed-returned t none h = cc
  parsed-returned t (some events) h = (events, refl, cc)

  -- A track that is refused comes before those of the rest.
  later :
      {t : CaptionTrack} {ts : List CaptionTrack} {answer : Transcript Seconds}
      → IsRefused t
      → (u : CaptionTrack) × IsFirst ts answer u
      → (u : CaptionTrack) × IsFirst (t ∷ ts) answer u
  later {t} here (u, (before, after, body, events, split, refused, served, read, same_answer)) = (
    u,
    (
      t ∷ before,
      after,
      body,
      events,
      ap (λ l. t ∷ l) split,
      (here, refused),
      served,
      read,
      same_answer,
    ),
  )

  not_returned :
      {c : ErrorClass} {m : Message} {answer : Transcript Seconds}
      → ¬ (Path (Attempt (Transcript Seconds)) (raised c m) (returned answer))
  not_returned h = cc

  All-middle :
      (P : CaptionTrack → Type 0) (before : List CaptionTrack) (t : CaptionTrack)
      (after : List CaptionTrack)
      → All P (before ++ t ∷ after)
      → P t
  All-middle P [] t after h = h.0
  All-middle P (b ∷ before) t after h = All-middle P before t after h.1

  fetch_each-IsFirst :
      (ts : List CaptionTrack) (last : Option (ErrorClass × Message)) {answer : Transcript Seconds}
      → fetch_each seconds is_blank fetch loads ts last ≡ returned answer
      → (t : CaptionTrack) × IsFirst ts answer t
  unfolding fetch_each
  fetch_each-IsFirst [] none h = cc
  fetch_each-IsFirst [] (some (c, m)) h = cc
  fetch_each-IsFirst (t ∷ ts) last {answer} h =
      go (fetch t.url) refl h (λ last' q. fetch_each-IsFirst ts last' q)
    where
      go :
          (a : Attempt String)
          → fetch t.url ≡ a
          → tried seconds is_blank fetch loads t a (fetch_each seconds is_blank fetch loads ts)
            ≡ returned answer
          → ((last' : Option (ErrorClass × Message))
              → fetch_each seconds is_blank fetch loads ts last' ≡ returned answer
              → (u : CaptionTrack) × IsFirst ts answer u)
          → (u : CaptionTrack) × IsFirst (t ∷ ts) answer u
      go (returned body) e q rest =
          let (events, read, same_answer) = parsed-returned t (loads body) q in
          (t, ([], ts, body, events, refl, tt, e, read, same_answer))
      go (raised c m) e q rest = elim (Bool-cases (is_instance upstream (domain c m))) [
        | inl i ↦
            let refused_here : IsRefused t = (c, m, e, i) in
            later refused_here (rest (some (c, m)) (rw i at q))
        | inr i ↦ absurd (not_returned (rw i at q))
      ]
      go crashed e q rest = cc

  -- A collection that returns gives the reading of the first of its candidates that is not refused
  -- by an upstream error, which is in a language that may be served, and says so.
  pub collect_transcript-IsFirst :
      (extract : String → Attempt Dump) (fallback : List String) (target : String)
      {answer : Transcript Seconds}
      → collect_transcript seconds is_blank fetch loads extract fallback target ≡ returned answer
      → IsCollected extract fallback target answer
  unfolding collect_transcript
  collect_transcript-IsFirst extract fallback target {answer} h = go (extract target) refl h
    where
      served :
          (d : Dump) (r : Result (List CaptionTrack))
          → extract target ≡ returned d
          → caption_track_candidates d fallback ≡ r
          → candidates_fetched seconds is_blank fetch loads r ≡ returned answer
          → IsCollected extract fallback target answer
      served d (ok ts) x e q =
          let (t, first) = fetch_each-IsFirst ts none q in
          let (before, after, body, events, split, refused, at_t, read, same_answer) = first in
          let all = (caption_track_candidates-IsServed d fallback e).0 in
          (
            d,
            ts,
            t,
            x,
            e,
            first,
            All-middle (IsServed (languages_of (video_language d) fallback)) before t after
                (subst (All (IsServed (languages_of (video_language d) fallback))) split all),
            ap (λ a. a.language) same_answer,
            ap (λ a. a.is_automatic) same_answer,
          )
      served d (err c m) x e q = cc

      go :
          (a : Attempt Dump)
          → extract target ≡ a
          → from_dump seconds is_blank fetch loads fallback a ≡ returned answer
          → IsCollected extract fallback target answer
      go (returned d) x q = served d (caption_track_candidates d fallback) x refl q
      go (raised c m) x q = cc
      go crashed x q = cc
