-- ===== src/Json.antt =====
-- Decoded JSON, as `json.loads` gives it.
use yt_scrapper.Base.{ℕ, suc, String, Bool, true, false, same, not, ◌==◌, if◌then◌else◌}
use Prim.Native.String.{count}

-- A Python `int`; `negsuc n` is -(n + 1).
pub data ℤ : Type 0 where
  pos negsuc : ℕ → ℤ

-- A number with a fraction is its text and whether it differs from 0. The keys of an object are
-- distinct, as those of a dictionary are.
mutual
  pub data Json : Type 0 where
    null : Json
    boolean : Bool → Json
    number : ℤ → Json
    real : String → Bool → Json
    text : String → Json
    array : Items → Json
    object : Members → Json

  pub data Items : Type 0 where
    nil : Items
    item : Json → Items → Items

  pub data Members : Type 0 where
    end : Members
    member : String → Json → Members → Members

-- `payload.get(name)`: an absent member and a null one read alike.
unfoldable pub get_member : String → Members → Json
get_member name end = null
get_member name (member n v rest) = if same n name then v else get_member name rest

abbrev is_zero : ℤ → Bool
is_zero (pos n) = n == 0
is_zero (negsuc n) = false

-- `bool(value)`
abbrev pub is_truthy : Json → Bool
is_truthy null = false
is_truthy (boolean b) = b
is_truthy (number n) = not (is_zero n)
is_truthy (real _ b) = b
is_truthy (text s) = not (count s == 0)
is_truthy (array nil) = false
is_truthy (array (item _ _)) = true
is_truthy (object end) = false
is_truthy (object (member _ _ _)) = true

abbrev pub items_count : Items → ℕ
items_count nil = 0
items_count (item _ rest) = suc (items_count rest)
