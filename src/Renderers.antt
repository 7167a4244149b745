-- ===== src/Renderers.antt =====
-- src/tubedepth/innertube/renderers.py: finding renderers by their names in a response, and telling
-- an empty answer from one that cannot be read. A mapping is the members of a JSON object.
pub mod Among
pub mod Stored
pub mod Empty
use Prim.Native.String.{◌++◌ as ◌then◌}
use yt_scrapper.Base.{
  String, Bool, true, false, ◌||◌, Option, none, some, List, [], ◌∷◌, ◌++◌, any, contains, take,
  same, if◌then◌else◌,
}
use yt_scrapper.Texts.{ends_with}
use yt_scrapper.Json.{Json, text, array, object, Items, nil, item, Members, end, member, get_member}
use yt_scrapper.Errors.{Result, ok, err, extraction, not_observed}
use yt_scrapper.Texts.{insert}

-- The mappings among the entries of a list.
unfoldable pub mappings_of : Items → List Members
mappings_of nil = []
mappings_of (item (object ms) rest) = ms ∷ mappings_of rest
mappings_of (item _ rest) = mappings_of rest

-- What a matching key holds: a mapping, or a list of them.
unfoldable pub held_by : Json → List Members
unfolding mappings_of
held_by (object ms) = ms ∷ []
held_by (array items) = mappings_of items
held_by _ = []

-- `find_all`
unfoldable mutual
  unfolding held_by

  pub find_all : String → Json → List Members
  find_all name (object ms) = find_in_members name ms
  find_all name (array items) = find_in_items name items
  find_all name _ = []

  pub find_in_members : String → Members → List Members
  find_in_members name end = []
  find_in_members name (member key value rest) =
      let matching = if same key name then held_by value else [] in
      matching ++ (find_all name value ++ find_in_members name rest)

  pub find_in_items : String → Items → List Members
  find_in_items name nil = []
  find_in_items name (item value rest) = find_all name value ++ find_in_items name rest

-- `key.endswith(RENDERER_SUFFIXES)`
unfoldable is_renderer : String → Bool
unfolding ends_with
is_renderer key = ends_with "Renderer" key || (ends_with "ViewModel" key || ends_with "Model" key)

-- `seen.add(key)`, of a set that is kept sorted.
abbrev see : String → List String → List String
see key seen = if contains key seen then seen else insert key seen

-- `observed_renderers`
unfoldable mutual
  unfolding is_renderer insert

  pub walk : Json → List String → List String
  walk (object ms) seen = walk_members ms seen
  walk (array items) seen = walk_items items seen
  walk _ seen = seen

  walk_members : Members → List String → List String
  walk_members end seen = seen
  walk_members (member key value rest) seen =
      walk_members rest (walk value (if is_renderer key then see key seen else seen))

  walk_items : Items → List String → List String
  walk_items nil seen = seen
  walk_items (item value rest) seen = walk_items rest (walk value seen)

unfoldable pub observed_renderers : Json → List String
unfolding walk
observed_renderers node = walk node []

unfoldable has_key : String → Members → Bool
has_key name end = false
has_key name (member key value rest) = same key name || has_key name rest

abbrev text_or : Json → Option String → Option String
text_or (text s) other = some s
text_or _ other = other

-- `str(...)` of a value is an argument.
module _ (str : Json → String) where
  abbrev run_text : Members → String
  run_text run = if has_key "text" run then str (get_member "text" run) else ""

  abbrev joined : List Members → String
  joined [] = ""
  joined (run ∷ runs) = run_text run then joined runs

  -- The text of the runs; a text is a sequence of no mappings.
  abbrev of_runs : Json → Option String
  of_runs (array items) = some (joined (mappings_of items))
  of_runs (text s) = some ""
  of_runs _ = none

  abbrev of_mapping : Members → Option String
  of_mapping ms =
      if has_key "simpleText" ms
      then some (str (get_member "simpleText" ms))
      else text_or (get_member "content" ms) (of_runs (get_member "runs" ms))

  unfoldable flatten_text : Json → Option String
  unfolding has_key get_member mappings_of
  flatten_text (text s) = some s
  flatten_text (object ms) = of_mapping ms
  flatten_text _ = none

-- All that is found under the names, in their order.
unfoldable pub find_each : List String → Json → List Members
unfolding find_all
find_each [] node = []
find_each (name ∷ names) node = find_all name node ++ find_each names node

abbrev pub is_any : List Members → Bool
is_any [] = false
is_any (_ ∷ _) = true

abbrev pub or_marked : String → List String → Json → Bool → List Members → Result (List Members)
or_marked contract accepted node marked (m ∷ ms) = ok (m ∷ ms)
or_marked contract accepted node marked [] =
    if marked
    then ok []
    else err extraction (not_observed contract accepted (take 12 (observed_renderers node)))

-- `collect`
unfoldable pub collect_renderers : Json → List String → String → List String → Result (List Members)
unfolding find_each observed_renderers
collect_renderers node accepted contract empty_markers =
    or_marked contract accepted node (any (λ marker. is_any (find_all marker node)) empty_markers)
      (find_each accepted node)
