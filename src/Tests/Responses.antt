-- ===== src/Tests/Responses.antt =====
-- A community tab with a post in a list, and one that says that it has none.
use yt_scrapper.Base.{String, List, [], ◌∷◌, ◌≡◌, ◌↔◌, refl}
use yt_scrapper.Json.{Json, text, array, object, nil, item, Members, end, member}
use yt_scrapper.Errors.{ok, err, extraction, not_observed}
use yt_scrapper.Renderers.{collect_renderers}
use yt_scrapper.Renderers.Among.{Among}
use yt_scrapper.Renderers.Empty.{StoredUnderAny, collect_renderers-ok}

abbrev post : Members
post = member "postId" (text "p") end

abbrev tab : Json
tab = object (
    member "tab"
      (array (item (object (member "postRenderer" (array (item (object post) nil)) end)) nil)) end)

abbrev empty_tab : Json
empty_tab = object (member "tab" (object (member "messageRenderer" (object end) end)) end)

abbrev posts : List String
posts = "backstagePostRenderer" ∷ "postRenderer" ∷ []

abbrev marks : List String
marks = "messageRenderer" ∷ "emptyStateRenderer" ∷ []

collect-tab : collect_renderers tab posts "posts" marks ≡ ok (post ∷ [])
unfolding collect_renderers
collect-tab = refl

-- Without the mark, what was observed is named.
collect-unmarked :
    collect_renderers empty_tab posts "posts" []
    ≡ err extraction (not_observed "posts" posts ("messageRenderer" ∷ []))
unfolding collect_renderers
collect-unmarked = refl

collect-empty_tab : collect_renderers empty_tab posts "posts" marks ≡ ok []
unfolding collect_renderers
collect-empty_tab = refl

collect_renderers-ok_example :
    ((ms : Members) → Among ms [] ↔ StoredUnderAny posts ms empty_tab)
    × (Path (List Members) [] [] → (ms : Members) × StoredUnderAny marks ms empty_tab)
collect_renderers-ok_example = collect_renderers-ok empty_tab posts "posts" marks collect-empty_tab
