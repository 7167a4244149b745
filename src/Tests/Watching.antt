-- ===== src/Tests/Watching.antt =====
-- A watch list of a comment, a blank line and two directives.
use yt_scrapper.Base.{String, List, [], ◌∷◌, same, if◌then◌else◌, ◌≡◌, ◌↔◌, refl}
use yt_scrapper.Errors.{validation, unknown_directive}
use yt_scrapper.Collection.State.{returned, raised}
use yt_scrapper.Watchlist.{Directive, decoded, Methods, read_watchlist}
use yt_scrapper.Watchlist.Lines.{Reads, read_watchlist-Reads}

abbrev methods : Methods
methods = record {
  strip = λ s. s;
  lower = λ s. s;
  split_once = λ s.
      if same s "search kpop debut"
      then ("search", "kpop debut")
      else (if same s "video v" then ("video", "v") else (s, ""));
}

abbrev lines : List String
lines = "# channels" ∷ "search kpop debut" ∷ "" ∷ "video v" ∷ []

abbrev search_directive : Directive
search_directive = record {
  kind = "search.videos";
  target = "kpop debut";
  follow_ups = "video.metadata" ∷ [];
  line = 2;
}

abbrev video_directive : Directive
video_directive = record { kind = "video.metadata"; target = "v"; follow_ups = []; line = 4 }

read-lines :
    read_watchlist methods (decoded lines) ≡ returned (search_directive ∷ video_directive ∷ [])
unfolding read_watchlist
read-lines = refl

read-typo :
    read_watchlist methods (decoded ("video v" ∷ "vidoe v" ∷ []))
    ≡ raised validation (unknown_directive 2 "vidoe v")
unfolding read_watchlist
read-typo = refl

read_watchlist-Reads_example :
    (read_watchlist methods (decoded lines) ≡ returned (search_directive ∷ video_directive ∷ []))
    ↔ ((ls : List String) × (decoded lines ≡ decoded ls)
        × Reads methods 1 ls (search_directive ∷ video_directive ∷ []))
read_watchlist-Reads_example =
    read_watchlist-Reads methods (decoded lines) (search_directive ∷ video_directive ∷ [])
