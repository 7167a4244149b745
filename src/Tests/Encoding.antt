-- ===== src/Tests/Encoding.antt =====
-- An encoding that keeps the laws of the codec: an instant is as many strokes, and a text is ended by
-- a letter and padded.
use Prim.Native.Nat.{◌%◌}
use Prim.Native.String.{count, ◌++◌ as ◌then◌}
use Prim.Native.String.append.{nil, cons}
use Prim.Native.String.count.{cons as count_cons}
use yt_scrapper.Base.{
  ℕ, zero, suc, ◌+◌, String, false, some, Time, arith, ◌≡◌, refl, ap, sym, ◌<◌, ◌∙◌, if◌then◌else◌,
}
use yt_scrapper.Api.Cursors.{
  with_offset, Codec, CodecLaws, rstrip, pads, pad_count, has_bar, rstrip-then,
}
use yt_scrapper.Texts.{is_empty}

abbrev pub strokes : ℕ → String
strokes zero = ""
strokes (suc n) = String.◌∷◌ "1" (strokes n)

-- All but the last character.
abbrev unended : String → String
unended String.[] = ""
unended (String.◌∷◌ c s) = if is_empty s then "" else String.◌∷◌ c (unended s)

abbrev ended : String → String
ended s = s then "A"

abbrev pub codec : Codec
codec = record {
  isoformat = strokes;
  fromisoformat = λ s. some (with_offset (count s));
  encode64 = λ s. ended s then pads (pad_count (ended s));
  decode64 = λ s. some (unended (rstrip s));
}

strokes-has_bar : (t : Time) → has_bar (strokes t) ≡ false
strokes-has_bar zero = refl
strokes-has_bar (suc t) = strokes-has_bar t

count-strokes : (t : Time) → count (strokes t) ≡ t
count-strokes zero = refl
count-strokes (suc t) = (λ i. count_cons "1" (strokes t) i) ∙ ap suc (count-strokes t)

is_empty-ended : (s : String) → is_empty (ended s) ≡ false
is_empty-ended String.[] = λ i. is_empty (nil "A" i)
is_empty-ended (String.◌∷◌ c s) = λ i. is_empty (cons c s "A" i)

rstrip-ended : (s : String) → rstrip (ended s) ≡ ended s
unfolding rstrip
rstrip-ended String.[] = (λ i. rstrip (nil "A" i)) ∙ sym (nil "A")
rstrip-ended (String.◌∷◌ c s) =
    (λ i. rstrip (cons c s "A" i))
    ∙ ground (arith, rstrip-ended s, is_empty-ended s)
    ∙ sym (cons c s "A")

unended-ended : (s : String) → unended (ended s) ≡ s
unended-ended String.[] = λ i. unended (nil "A" i)
unended-ended (String.◌∷◌ c s) =
    (λ i. unended (cons c s "A" i)) ∙ ground (arith, unended-ended s, is_empty-ended s)

decode64-encode64 : (s : String) → codec.decode64 (codec.encode64 s) ≡ some s
decode64-encode64 s =
    rw (rstrip-then (ended s) (pad_count (ended s)), rstrip-ended s, unended-ended s)

encode64_lem :
    (s : String)
    → is_empty s ≡ false
    → (body : String) × (n : ℕ) × (rstrip body ≡ body)
      × (is_empty body ≡ false)
      × (codec.encode64 s ≡ body then pads n)
      × (n < 4)
      × ((count body + n) % 4 ≡ 0)
encode64_lem s h =
    (ended s, pad_count (ended s), rstrip-ended s, is_empty-ended s, refl, omega arith, omega arith)

pub codec_laws : CodecLaws codec
codec_laws = record {
  isoformat_has_bar = strokes-has_bar;
  fromisoformat_isoformat = λ t. ap (λ n. some (with_offset n)) (count-strokes t);
  decode64_encode64 = decode64-encode64;
  encode64_padded = encode64_lem;
}
