-- ===== src/Renderers/Among.antt =====
-- Where a mapping stands in a response, and which mappings a list of them has.

use yt_scrapper.Base.{String, List, [], ◌∷◌, ◌++◌, ◌⊎◌, inl, inr}
use yt_scrapper.Json.{
  Json, null, boolean, number, real, text as words, array, object, Items, nil, item, Members,
  member,
}
use yt_scrapper.Renderers.{mappings_of}

-- A mapping among some, and an entry of a list.
pub data Among (ms : Members) : List Members → Type 0 where
  first : {rest : List Members} → Among ms (ms ∷ rest)
  after : {m : Members} {rest : List Members} → Among ms rest → Among ms (m ∷ rest)

pub data Entry (v : Json) : Items → Type 0 where
  first_entry : {rest : Items} → Entry v (item v rest)
  after_entry : {u : Json} {rest : Items} → Entry v rest → Entry v (item u rest)

-- A member of a mapping, by its key and its value.
pub data Has (key : String) (v : Json) : Members → Type 0 where
  first_member : {rest : Members} → Has key v (member key v rest)
  after_member :
      {k : String} {u : Json} {rest : Members} → Has key v rest → Has key v (member k u rest)

-- A value that stands anywhere in a response.
pub data Within (v : Json) : Json → Type 0 where
  itself : Within v v
  in_member :
      {key : String} {u : Json} {ms : Members} → Has key u ms → Within v u → Within v (object ms)
  in_entry : {u : Json} {items : Items} → Entry u items → Within v u → Within v (array items)

-- A mapping that some mapping of the response holds under the name, directly or in a list.
pub data StoredUnder (name : String) (ms : Members) (node : Json) : Type 0 where
  directly :
      {holder : Members}
      → Within (object holder) node
      → Has name (object ms) holder
      → StoredUnder name ms node
  in_list :
      {holder : Members} {items : Items}
      → Within (object holder) node
      → Has name (array items) holder
      → Entry (object ms) items
      → StoredUnder name ms node

pub among-left : {ms : Members} (xs ys : List Members) → Among ms xs → Among ms (xs ++ ys)
among-left [] ys a = elim a [ ]
among-left (x ∷ xs) ys first = first
among-left (x ∷ xs) ys (after a) = after (among-left xs ys a)

pub among-right : {ms : Members} (xs ys : List Members) → Among ms ys → Among ms (xs ++ ys)
among-right [] ys a = a
among-right (x ∷ xs) ys a = after (among-right xs ys a)

pub among-cases :
    {ms : Members} (xs ys : List Members) → Among ms (xs ++ ys) → Among ms xs ⊎ Among ms ys
among-cases [] ys a = inr a
among-cases (x ∷ xs) ys first = inl first
among-cases (x ∷ xs) ys (after a) = elim (among-cases xs ys a) [
  | inl b ↦ inl (after b)
  | inr b ↦ inr b
]

pub mappings_of-Entry :
    {ms : Members} (items : Items) → Entry (object ms) items → Among ms (mappings_of items)
unfolding mappings_of
mappings_of-Entry nil e = elim e [ ]
mappings_of-Entry (item (object ms) rest) first_entry = first
mappings_of-Entry (item null rest) (after_entry e) = mappings_of-Entry rest e
mappings_of-Entry (item (boolean b) rest) (after_entry e) = mappings_of-Entry rest e
mappings_of-Entry (item (number n) rest) (after_entry e) = mappings_of-Entry rest e
mappings_of-Entry (item (real s b) rest) (after_entry e) = mappings_of-Entry rest e
mappings_of-Entry (item (words s) rest) (after_entry e) = mappings_of-Entry rest e
mappings_of-Entry (item (array items) rest) (after_entry e) = mappings_of-Entry rest e
mappings_of-Entry (item (object o) rest) (after_entry e) = after (mappings_of-Entry rest e)

pub Entry-mappings_of :
    {ms : Members} (items : Items) → Among ms (mappings_of items) → Entry (object ms) items
unfolding mappings_of
Entry-mappings_of nil a = elim a [ ]
Entry-mappings_of (item null rest) a = after_entry (Entry-mappings_of rest a)
Entry-mappings_of (item (boolean b) rest) a = after_entry (Entry-mappings_of rest a)
Entry-mappings_of (item (number n) rest) a = after_entry (Entry-mappings_of rest a)
Entry-mappings_of (item (real s b) rest) a = after_entry (Entry-mappings_of rest a)
Entry-mappings_of (item (words s) rest) a = after_entry (Entry-mappings_of rest a)
Entry-mappings_of (item (array items) rest) a = after_entry (Entry-mappings_of rest a)
Entry-mappings_of (item (object o) rest) first = first_entry
Entry-mappings_of (item (object o) rest) (after a) = after_entry (Entry-mappings_of rest a)
