-- ===== src/Renderers/Stored.antt =====
-- What `find_all` yields: the mappings that are stored under a name, at any depth, and no others.
use text.Mathlib.TextPositions.{eq_refl}
use yt_scrapper.Base.{String, [], same, if◌then◌else◌, subst, inl, inr, ◌↔◌, Bool-cases, eq_iff}
use yt_scrapper.Json.{
  Json, null, boolean, number, real, text as words, array, object, Items, nil, item, Members, end,
  member,
}
use yt_scrapper.Renderers.{held_by, find_all, find_in_members, find_in_items}
use yt_scrapper.Renderers.Among.{
  Among, first, after, Entry, first_entry, after_entry, Has, first_member, after_member, Within,
  itself, in_member, in_entry, StoredUnder, directly, in_list, among-left, among-right, among-cases,
  mappings_of-Entry, Entry-mappings_of,
}

module _ (name : String) {ms : Members} where
  -- What is stored in a part is stored in the whole.
  wrap_member :
      (key : String) (v : Json) (holder : Members)
      → Has key v holder
      → StoredUnder name ms v
      → StoredUnder name ms (object holder)
  wrap_member key v holder h (directly w d) = directly (in_member h w) d
  wrap_member key v holder h (in_list w d e) = in_list (in_member h w) d e

  wrap_entry :
      (v : Json) (items : Items)
      → Entry v items
      → StoredUnder name ms v
      → StoredUnder name ms (array items)
  wrap_entry v items h (directly w d) = directly (in_entry h w) d
  wrap_entry v items h (in_list w d e) = in_list (in_entry h w) d e

  held_by-stored :
      (v : Json) (holder : Members)
      → Has name v holder
      → Among ms (held_by v)
      → StoredUnder name ms (object holder)
  unfolding held_by
  held_by-stored null holder h a = elim a [ ]
  held_by-stored (boolean b) holder h a = elim a [ ]
  held_by-stored (number n) holder h a = elim a [ ]
  held_by-stored (real s b) holder h a = elim a [ ]
  held_by-stored (words s) holder h a = elim a [ ]
  held_by-stored (object o) holder h first = directly itself h
  held_by-stored (object o) holder h (after a) = elim a [ ]
  held_by-stored (array items) holder h a = in_list itself h (Entry-mappings_of items a)

  matching-stored :
      (key : String) (v : Json) (holder : Members)
      → Has key v holder
      → Among ms (if same key name then held_by v else [])
      → StoredUnder name ms (object holder)
  matching-stored key v holder h a = elim (Bool-cases (same key name)) [
    | inl e ↦
        held_by-stored v holder (subst (λ k. Has k v holder) ((eq_iff key name).0 e) h) (rw e at a)
    | inr e ↦ absurd (nothing (rw e at a))
  ]
    where
      nothing : ¬ (Among ms [])
      nothing = elim [ ]

  mutual
    unfolding find_all

    find_all-stored : (node : Json) → Among ms (find_all name node) → StoredUnder name ms node
    find_all-stored null a = elim a [ ]
    find_all-stored (boolean b) a = elim a [ ]
    find_all-stored (number n) a = elim a [ ]
    find_all-stored (real s b) a = elim a [ ]
    find_all-stored (words s) a = elim a [ ]
    find_all-stored (object o) a = find_in_members-stored o o (λ k u h. h) a
    find_all-stored (array items) a = find_in_items-stored items items (λ u h. h) a

    find_in_members-stored :
        (rest whole : Members)
        → ((k : String) (u : Json) → Has k u rest → Has k u whole)
        → Among ms (find_in_members name rest)
        → StoredUnder name ms (object whole)
    find_in_members-stored end whole embed a = elim a [ ]
    find_in_members-stored (member k v rest) whole embed a =
        elim (among-cases (if same k name then held_by v else []) _ a) [
          | inl b ↦ matching-stored k v whole (embed k v first_member) b
          | inr b ↦ elim (among-cases (find_all name v) (find_in_members name rest) b) [
            | inl c ↦ wrap_member k v whole (embed k v first_member) (find_all-stored v c)
            | inr c ↦ find_in_members-stored rest whole (λ l u h. embed l u (after_member h)) c
          ]
        ]

    find_in_items-stored :
        (rest whole : Items)
        → ((u : Json) → Entry u rest → Entry u whole)
        → Among ms (find_in_items name rest)
        → StoredUnder name ms (array whole)
    find_in_items-stored nil whole embed a = elim a [ ]
    find_in_items-stored (item v rest) whole embed a =
        elim (among-cases (find_all name v) (find_in_items name rest) a) [
          | inl c ↦ wrap_entry v whole (embed v first_entry) (find_all-stored v c)
          | inr c ↦ find_in_items-stored rest whole (λ u h. embed u (after_entry h)) c
        ]

  -- What is found in a part is found in the whole.
  find_in_members-Has :
      (key : String) (v : Json) (holder : Members)
      → Has key v holder
      → Among ms (find_all name v)
      → Among ms (find_in_members name holder)
  unfolding find_all
  find_in_members-Has key v end h a = elim h [ ]
  find_in_members-Has key v (member _ _ rest) first_member a =
      among-right (if same key name then held_by v else []) _ (among-left (find_all name v) _ a)
  find_in_members-Has key v (member k u rest) (after_member h) a =
      among-right (if same k name then held_by u else []) _
        (among-right (find_all name u) _ (find_in_members-Has key v rest h a))

  find_in_items-Entry :
      (v : Json) (items : Items)
      → Entry v items
      → Among ms (find_all name v)
      → Among ms (find_in_items name items)
  unfolding find_all
  find_in_items-Entry v nil h a = elim h [ ]
  find_in_items-Entry v (item _ rest) first_entry a = among-left (find_all name v) _ a
  find_in_items-Entry v (item u rest) (after_entry h) a =
      among-right (find_all name u) _ (find_in_items-Entry v rest h a)

  find_all-Within :
      (v node : Json) → Within v node → Among ms (find_all name v) → Among ms (find_all name node)
  unfolding find_all
  find_all-Within v _ itself a = a
  find_all-Within v (object o) (in_member {key} {u} h w) a =
      find_in_members-Has key u o h (find_all-Within v u w a)
  find_all-Within v (array items) (in_entry {u} h w) a =
      find_in_items-Entry u items h (find_all-Within v u w a)

  find_in_members-held :
      (v : Json) (holder : Members)
      → Has name v holder
      → Among ms (held_by v)
      → Among ms (find_in_members name holder)
  unfolding find_all
  find_in_members-held v end h a = elim h [ ]
  find_in_members-held v (member _ _ rest) first_member a =
      among-left (if same name name then held_by v else []) _ (rw (eq_refl name) a)
  find_in_members-held v (member k u rest) (after_member h) a =
      among-right (if same k name then held_by u else []) _
        (among-right (find_all name u) _ (find_in_members-held v rest h a))

  -- What is found under a name is exactly what is stored under it, in a mapping at any depth, as a
  -- mapping or as an entry of a list.
  pub find_all-StoredUnder :
      (node : Json) → Among ms (find_all name node) ↔ StoredUnder name ms node
  find_all-StoredUnder node = (find_all-stored node, stored-found)
    where
      stored-found : StoredUnder name ms node → Among ms (find_all name node)
      stored-found (directly {holder} w h) =
          find_all-Within (object holder) node w
            (unfold find_all in find_in_members-held (object ms) holder h (unfold held_by in first))
      stored-found (in_list {holder} {items} w h e) = find_all-Within (object holder) node w (
          unfold find_all in
          find_in_members-held (array items) holder h (unfold held_by in mappings_of-Entry items e))
