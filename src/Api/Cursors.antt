-- ===== src/Api/Cursors.antt =====
-- `_encode_cursor` and `_decode_cursor`. Base64 and the ISO form of an instant are arguments.
use Prim.Native.Char.{Char, code}
use Prim.Native.String.{count, ◌++◌ as ◌then◌}
use Prim.Native.String.append.{nil, cons}
use yt_scrapper.Base.{
  ℕ, zero, suc, ◌+◌, ◌-◌, ◌<◌, String, Bool, false, Option, none, some, Time, ◌==◌, ◌&&◌, ◌||◌,
  arith, ◌≡◌, refl, ap, sym, ◌∙◌, if◌then◌else◌,
}
use Prim.Native.Nat.{◌%◌}
use yt_scrapper.Errors.{Result, ok, err, validation, not_issued}
use yt_scrapper.Keyset.{Cursor}
use yt_scrapper.Texts.{is_empty}

-- An instant as it was parsed: with an offset or without one.
pub data Bound : Type 0 where
  with_offset without_offset : Time → Bound

-- The encodings of the standard library. `decode64` and `fromisoformat` are none for a `ValueError`.
pub record Codec : Type 0 where
  pub isoformat : Time → String
  pub fromisoformat : String → Option Bound
  pub encode64 : String → String
  pub decode64 : String → Option String

-- `s.rstrip("=")`
unfoldable pub rstrip : String → String
rstrip String.[] = ""
rstrip (String.◌∷◌ c s) =
    let rest = rstrip s in if code c == b'=' && is_empty rest then "" else String.◌∷◌ c rest

-- `"=" * n`
unfoldable pub pads : ℕ → String
pads zero = ""
pads (suc n) = String.◌∷◌ "=" (pads n)

-- `-len(s) % 4`
abbrev pub pad_count : String → ℕ
pad_count s = (4 - count s % 4) % 4

-- `s.partition("|")`, without the bar.
unfoldable pub partition : String → String × String
partition String.[] = ("", "")
partition (String.◌∷◌ c s) =
    let rest = partition s in if code c == b'|' then ("", s) else (String.◌∷◌ c rest.0, rest.1)

abbrev pub has_bar : String → Bool
has_bar String.[] = false
has_bar (String.◌∷◌ c s) = code c == b'|' || has_bar s

module _ (codec : Codec) where
  open codec use {isoformat, fromisoformat, encode64, decode64}

  unfoldable pub encode_cursor : Cursor → String
  unfolding rstrip
  encode_cursor (moment, identifier) =
      rstrip (encode64 (isoformat moment then ("|" then identifier)))

  abbrev cursor_at : String → String → Option Bound → Result (Bound × String)
  cursor_at cursor identifier none = err validation (not_issued cursor)
  cursor_at cursor identifier (some t) = ok (t, identifier)

  abbrev parts_of : String → Option String → Result (Bound × String)
  parts_of cursor none = err validation (not_issued cursor)
  parts_of cursor (some raw) =
      let (moment, identifier) = partition raw in cursor_at cursor identifier (fromisoformat moment)

  unfoldable pub decode_cursor : String → Result (Bound × String)
  unfolding partition pads
  decode_cursor cursor = parts_of cursor (decode64 (cursor then pads (pad_count cursor)))

-- What the encodings document: an ISO instant has no bar, each reads back, with its offset, and what Base64 writes
-- of a text that is not empty is padded to a multiple of four with fewer than four signs.
pub record CodecLaws (codec : Codec) : Type 0 where
  pub isoformat_has_bar : (t : Time) → has_bar (codec.isoformat t) ≡ false
  pub fromisoformat_isoformat :
      (t : Time) → codec.fromisoformat (codec.isoformat t) ≡ some (with_offset t)
  pub decode64_encode64 : (s : String) → codec.decode64 (codec.encode64 s) ≡ some s
  pub encode64_padded :
      (s : String)
      → is_empty s ≡ false
      → (body : String) × (n : ℕ) × (rstrip body ≡ body)
        × (is_empty body ≡ false)
        × (codec.encode64 s ≡ body then pads n)
        × (n < 4)
        × ((count body + n) % 4 ≡ 0)

rstrip-pads : (n : ℕ) → rstrip (pads n) ≡ ""
unfolding rstrip pads
rstrip-pads zero = refl
rstrip-pads (suc n) = rw (rstrip-pads n)

pub rstrip-then : (s : String) (n : ℕ) → rstrip (s then pads n) ≡ rstrip s
unfolding rstrip
rstrip-then String.[] n = (λ i. rstrip (nil (pads n) i)) ∙ rstrip-pads n
rstrip-then (String.◌∷◌ c s) n =
    (λ i. rstrip (cons c s (pads n) i))
    ∙ ap (λ r. if code c == b'=' && is_empty r then "" else String.◌∷◌ c r) (rstrip-then s n)

partition-then : (s t : String) → has_bar s ≡ false → partition (s then ("|" then t)) ≡ (s, t)
unfolding partition
partition-then String.[] t h =
    (λ i. partition (nil ("|" then t) i))
    ∙ (λ i. partition (cons "|" "" t i))
    ∙ (λ i. partition (String.◌∷◌ "|" (nil t i)))
partition-then (String.◌∷◌ c s) t h =
    (λ i. partition (cons c s ("|" then t) i)) ∙ ground (arith, partition-then s t)

is_empty-then : (s : String) (c : Char) (t : String) → is_empty (s then String.◌∷◌ c t) ≡ false
is_empty-then String.[] c t = λ i. is_empty (nil (String.◌∷◌ c t) i)
is_empty-then (String.◌∷◌ d s) c t = λ i. is_empty (cons d s (String.◌∷◌ c t) i)

is_empty-cursor : (s t : String) → is_empty (s then ("|" then t)) ≡ false
is_empty-cursor s t =
    ap (λ r. is_empty (s then r)) (λ i. cons "|" "" t i) ∙ is_empty-then s "|" ("" then t)

-- The signs that are missing from a body are those that were stripped.
pad_count-body : (body : String) (n : ℕ) → n < 4 → (count body + n) % 4 ≡ 0 → pad_count body ≡ n
pad_count-body body n l h = omega (arith, l, h)

module _ (codec : Codec) (laws : CodecLaws codec) (moment : Time) (identifier : String) where
  open codec use {isoformat, fromisoformat, encode64, decode64}
  open laws use {isoformat_has_bar, fromisoformat_isoformat, decode64_encode64, encode64_padded}

  abbrev raw : String
  raw = isoformat moment then ("|" then identifier)

  -- What is sent, padded again, is what Base64 wrote.
  padded-encode_cursor :
      let cursor = encode_cursor codec (moment, identifier) in
      (cursor then pads (pad_count cursor) ≡ encode64 raw) × (is_empty cursor ≡ false)
  unfolding encode_cursor
  padded-encode_cursor =
      let (body, n, stripped, filled, e, l, h) =
        encode64_padded raw (is_empty-cursor (isoformat moment) identifier) in
      let cursor : rstrip (encode64 raw) ≡ body = ap rstrip e ∙ rstrip-then body n ∙ stripped in
      rw (cursor, pad_count-body body n l h) (sym e, filled)

  pub decode_cursor-encode_cursor :
      decode_cursor codec (encode_cursor codec (moment, identifier))
      ≡ ok (with_offset moment, identifier)
  unfolding decode_cursor
  decode_cursor-encode_cursor = rw (
    padded-encode_cursor.0,
    decode64_encode64 raw,
    partition-then (isoformat moment) identifier (isoformat_has_bar moment),
    fromisoformat_isoformat moment,
  )

  pub is_empty-encode_cursor : is_empty (encode_cursor codec (moment, identifier)) ≡ false
  is_empty-encode_cursor = padded-encode_cursor.1
