-- ===== src/Watchlist.antt =====
-- src/tubedepth/watchlist.py: the watch list, one directive to a line. What the file is read as is an
-- argument, and so are the methods of texts: `strip`, `lower` and `split(maxsplit=1)`.
pub mod Lines
use yt_scrapper.Base.{
  ℕ, suc, String, Bool, Option, none, some, List, [], ◌∷◌, same, ◌||◌, if◌then◌else◌,
}
use yt_scrapper.Texts.{starts_with}
use yt_scrapper.Errors.{Result, ok, err, and_then, validation, unknown_directive, no_target, text}
use yt_scrapper.Collection.State.{Attempt, raised, crashed, attempt_of}
use yt_scrapper.Texts.{is_empty}

pub record Directive : Type 0 where
  pub kind : String
  pub target : String
  pub follow_ups : List String
  pub line : ℕ

-- A kind, and what to collect of each video that it finds.
abbrev pub Entry : Type 0
Entry = String × List String

unfoldable pub directives : List (String × Entry)
directives =
    ("video", ("video.metadata", []))
    ∷ ("channel", ("channel.videos", "video.metadata" ∷ []))
    ∷ ("channel+comments", ("channel.videos", "video.metadata" ∷ "video.comments" ∷ []))
    ∷ ("search", ("search.videos", "video.metadata" ∷ []))
    ∷ ("search+comments", ("search.videos", "video.metadata" ∷ "video.comments" ∷ []))
    ∷ ("playlist", ("playlist.items", "video.metadata" ∷ []))
    ∷ ("playlist+comments", ("playlist.items", "video.metadata" ∷ "video.comments" ∷ []))
    ∷ ("trending", ("trending.videos", "video.metadata" ∷ []))
    ∷ []

-- `DIRECTIVES.get(name)`
unfoldable entry_of : String → List (String × Entry) → Option Entry
entry_of name [] = none
entry_of name ((n, e) ∷ rest) = if same n name then some e else entry_of name rest

abbrev pub comment : String
comment = "#"

-- `path.read_text(encoding="utf-8").splitlines()`: the lines; an `OSError`; or a
-- `UnicodeDecodeError`, which is no domain error and which nothing catches.
pub data FileText : Type 0 where
  decoded : List String → FileText
  unreadable undecodable : FileText

-- The methods of texts. `split_once` is the first word of a text that is not blank, and what
-- follows it.
pub record Methods : Type 0 where
  pub strip : String → String
  pub lower : String → String
  pub split_once : String → String × String

module _ (methods : Methods) where
  open methods use {strip, lower, split_once}

  abbrev directive_for : String → String → ℕ → Option Entry → Result Directive
  directive_for name target number none = err validation (unknown_directive number name)
  directive_for name target number (some (kind, follow_ups)) =
      if is_empty target
      then err validation (no_target number name)
      else ok (record { kind = kind; target = target; follow_ups = follow_ups; line = number })

  -- `_directive`
  unfoldable pub directive : String → ℕ → Result Directive
  unfolding directives entry_of
  directive line number =
      let (name, rest) = split_once line in
      directive_for name (strip rest) number (entry_of (lower name) directives)

  -- A blank line, or a comment.
  abbrev pub is_skipped : String → Bool
  is_skipped line = is_empty (strip line) || starts_with comment (strip line)

  -- The loop of `read_watchlist`, from the number of its first line.
  unfoldable pub read_lines : ℕ → List String → Result (List Directive)
  unfolding directive
  read_lines number [] = ok []
  read_lines number (line ∷ lines) =
      let rest = read_lines (suc number) lines in
      if is_skipped line
      then rest
      else and_then (directive (strip line) number) (λ d. and_then rest (λ ds. ok (d ∷ ds)))

  unfoldable pub read_watchlist : FileText → Attempt (List Directive)
  unfolding read_lines
  read_watchlist (decoded lines) = attempt_of (read_lines 1 lines)
  read_watchlist unreadable = raised validation (text "cannot read the watch list")
  read_watchlist undecodable = crashed
