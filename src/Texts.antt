-- ===== src/Texts.antt =====
-- The methods of Python's `str` that several modules call, on texts as lists of characters.
use Prim.Native.Char.{Char, code}
use Prim.Native.String.{compare}
use Prim.Native.Nat.{Ordering}
use yt_scrapper.Base.{
  String, Bool, true, false, ◌&&◌, ◌||◌, ◌==◌, List, [], ◌∷◌, same, if◌then◌else◌,
}

-- `s.endswith(suffix)`
unfoldable pub ends_with : String → String → Bool
ends_with suffix String.[] = same String.[] suffix
ends_with suffix (String.◌∷◌ c s) = same (String.◌∷◌ c s) suffix || ends_with suffix s

-- `s.removesuffix(suffix)`
unfoldable pub remove_suffix : String → String → String
remove_suffix suffix String.[] = ""
remove_suffix suffix (String.◌∷◌ c s) =
    if same (String.◌∷◌ c s) suffix then "" else String.◌∷◌ c (remove_suffix suffix s)

-- `s.startswith(prefix)`, with the prefix first.
abbrev pub starts_with : String → String → Bool
starts_with String.[] s = true
starts_with (String.◌∷◌ c p) String.[] = false
starts_with (String.◌∷◌ c p) (String.◌∷◌ d s) = code c == code d && starts_with p s

abbrev pub push : Char → List String → List String
push c [] = String.◌∷◌ c "" ∷ []
push c (w ∷ ws) = String.◌∷◌ c w ∷ ws

-- `s.split("/")`
unfoldable pub split_path : String → List String
split_path String.[] = "" ∷ []
split_path (String.◌∷◌ c s) =
    let rest = split_path s in if code c == b'/' then "" ∷ rest else push c rest

-- `s.lstrip("/")`
unfoldable pub strip_slashes : String → String
strip_slashes String.[] = ""
strip_slashes (String.◌∷◌ c s) =
    let rest = strip_slashes s in if code c == b'/' then rest else String.◌∷◌ c s

-- `not s`
abbrev pub is_empty : String → Bool
is_empty String.[] = true
is_empty (String.◌∷◌ c s) = false

abbrev pub is_filled : String → Bool
is_filled String.[] = false
is_filled (String.◌∷◌ c s) = true

-- `a <= b`
abbrev pub is_before : String → String → Bool
is_before a b = elim (compare a b) [ Ordering.gt ↦ false | _ ↦ true ]

unfoldable pub insert : String → List String → List String
insert k [] = k ∷ []
insert k (l ∷ ls) = if is_before k l then k ∷ l ∷ ls else l ∷ insert k ls

-- `sorted(...)`, by insertion.
unfoldable pub sorted_texts : List String → List String
unfolding insert
sorted_texts [] = []
sorted_texts (k ∷ ks) = insert k (sorted_texts ks)
