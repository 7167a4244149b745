-- ===== src/Flatten/Tables/Once.antt =====
-- The rows of a harvest of comments.
use Prim.Native.String.{count}
use yt_scrapper.Base.{
  ℕ, ◌≤◌, String, true, false, Option, none, some, List, [], ◌∷◌, same, any, All, All-mono, arith,
  ◌≡◌, refl, subst, >>=-eq-some, some-inj, eq_iff, inl, inr, Bool-cases,
}
use yt_scrapper.Json.{
  Json, null, boolean, number, real, text, array, object, Items, nil, item, Members, get_member,
}
use yt_scrapper.Flatten.Rows.{
  Calendar, Observation, CommentRecord, usable, within, bounded, integer, identifier_limit,
  comment_id_limit,
}
use yt_scrapper.Flatten.Transforms.{
  instant, put_comment, comment_row, comment_loop, comment_rows, named_comment, comment_entry,
  comments_of,
}
use yt_scrapper.Flatten.Tables.{comment_key, has_twice}

abbrev Differs : CommentRecord → CommentRecord → Type 0
Differs r s = same r.comment_id s.comment_id ≡ false

-- No identifier of a comment occurs twice.
abbrev IsDistinct : List CommentRecord → Type 0
IsDistinct [] = Unit {0}
IsDistinct (r ∷ rows) = All (Differs r) rows × IsDistinct rows

-- A text of a column that takes no more than a number of characters; other values pass.
abbrev Fits : ℕ → Json → Type 0
Fits limit (text s) = count s ≤ limit
Fits limit _ = Unit {0}

-- Every bounded column takes what the row has for it.
abbrev pub FitsColumns : CommentRecord → Type 0
FitsColumns r =
    (count r.video_id ≤ identifier_limit)
    × (count r.comment_id ≤ comment_id_limit)
    × Fits comment_id_limit r.parent_id
    × Fits identifier_limit r.author_id

put_comment-All {ℓ} :
    (P : CommentRecord → Type ℓ) (row : CommentRecord) (rows : List CommentRecord)
    → P row
    → All P rows
    → All P (put_comment row rows)
unfolding put_comment
put_comment-All P row [] p h = (p, tt)
put_comment-All P row (r ∷ rows) p h = elim (Bool-cases (same r.comment_id row.comment_id)) [
  | inl e ↦ rw e (p, h.1)
  | inr e ↦ rw e (h.0, put_comment-All P row rows p h.1)
]

Differs-cong :
    (r row s : CommentRecord)
    → same r.comment_id row.comment_id ≡ true
    → Differs r s
    → Differs row s
Differs-cong r row s e d =
    let q : r.comment_id ≡ row.comment_id = (eq_iff r.comment_id row.comment_id).0 e in rw q at d

put_comment-IsDistinct :
    (row : CommentRecord) (rows : List CommentRecord)
    → IsDistinct rows
    → IsDistinct (put_comment row rows)
unfolding put_comment
put_comment-IsDistinct row [] h = (tt, tt)
put_comment-IsDistinct row (r ∷ rows) h = elim (Bool-cases (same r.comment_id row.comment_id)) [
  | inl e ↦ rw e (All-mono rows (λ s. Differs-cong r row s e) h.0, h.1)
  | inr e ↦ rw e (put_comment-All (Differs r) row rows e h.0, put_comment-IsDistinct row rows h.1)
]

within-le : (s : String) (limit : ℕ) {s' : String} → within s limit ≡ some s' → count s' ≤ limit
unfolding within
within-le s limit h = ground arith

bounded-Fits : (v : Json) (limit : ℕ) {v' : Json} → bounded v limit ≡ some v' → Fits limit v'
unfolding bounded
bounded-Fits null limit h = ground arith
bounded-Fits (boolean b) limit h = ground arith
bounded-Fits (number n) limit h = ground arith
bounded-Fits (real s b) limit h = ground arith
bounded-Fits (text s) limit h = ground arith
bounded-Fits (array xs) limit h = ground arith
bounded-Fits (object m) limit h = ground arith

module _ (calendar : Calendar) (o : Observation) where
  -- What the loop keeps true of the rows that it has.
  abbrev IsGood : List CommentRecord → Type 0
  IsGood rows = IsDistinct rows × All FitsColumns rows

  comment_row-FitsColumns :
      (comment_id : String) (comment : Members) {row : CommentRecord}
      → comment_row calendar o comment_id comment ≡ some row
      → FitsColumns row
  unfolding comment_row
  comment_row-FitsColumns comment_id comment {row} h =
      let (video_id, e, h1) = >>=-eq-some (within o.target identifier_limit) _ h in
      let (comment_id', e1, h2) = >>=-eq-some (within comment_id comment_id_limit) _ h1 in
      let (parent_id, e2, h3) =
        >>=-eq-some (bounded (get_member "parent_id" comment) comment_id_limit) _ h2 in
      let (author_id, e3, h4) =
        >>=-eq-some (bounded (get_member "author_id" comment) identifier_limit) _ h3 in
      let (like_count, e4, h5) = >>=-eq-some (integer (get_member "like_count" comment)) _ h4 in
      let (published_at, e5, h6) =
        >>=-eq-some (instant calendar (get_member "published_at" comment)) _ h5 in
      subst FitsColumns (some-inj h6) (
        within-le o.target identifier_limit e,
        within-le comment_id comment_id_limit e1,
        bounded-Fits (get_member "parent_id" comment) comment_id_limit e2,
        bounded-Fits (get_member "author_id" comment) identifier_limit e3,
      )

  named_comment-IsGood :
      (comment : Members) (id : Option String) (rows : List CommentRecord)
      {rows' : List CommentRecord}
      → IsGood rows
      → named_comment calendar o comment id rows ≡ some rows'
      → IsGood rows'
  named_comment-IsGood comment none rows g h = subst IsGood (some-inj h) g
  named_comment-IsGood comment (some id) rows g h =
      let (row, e, h1) = >>=-eq-some (comment_row calendar o id comment) _ h in
      subst IsGood (some-inj h1) (
        put_comment-IsDistinct row rows g.0,
        put_comment-All FitsColumns row rows (comment_row-FitsColumns id comment e) g.1,
      )

  comment_entry-IsGood :
      (v : Json) (rows : List CommentRecord) {rows' : List CommentRecord}
      → IsGood rows
      → comment_entry calendar o v rows ≡ some rows'
      → IsGood rows'
  comment_entry-IsGood (object comment) rows g h =
      named_comment-IsGood comment (usable (get_member "comment_id" comment)) rows g h
  comment_entry-IsGood null rows g h = subst IsGood (some-inj h) g
  comment_entry-IsGood (boolean b) rows g h = subst IsGood (some-inj h) g
  comment_entry-IsGood (number n) rows g h = subst IsGood (some-inj h) g
  comment_entry-IsGood (real s b) rows g h = subst IsGood (some-inj h) g
  comment_entry-IsGood (text s) rows g h = subst IsGood (some-inj h) g
  comment_entry-IsGood (array xs) rows g h = subst IsGood (some-inj h) g

  comment_loop-IsGood :
      (items : Items) (rows : List CommentRecord) {rows' : List CommentRecord}
      → IsGood rows
      → comment_loop calendar o items rows ≡ some rows'
      → IsGood rows'
  unfolding comment_loop
  comment_loop-IsGood nil rows g h = subst IsGood (some-inj h) g
  comment_loop-IsGood (item v rest) rows g h =
      let (rows1, e, h1) = >>=-eq-some (comment_entry calendar o v rows) _ h in
      comment_loop-IsGood rest rows1 (comment_entry-IsGood v rows g e) h1

  IsDistinct-has_twice :
      (rows : List CommentRecord) → IsDistinct rows → has_twice comment_key rows ≡ false
  IsDistinct-has_twice [] h = refl
  IsDistinct-has_twice (r ∷ rows) h = rw (no_other rows h.0, IsDistinct-has_twice rows h.1)
    where
      no_other :
          (rows : List CommentRecord)
          → All (Differs r) rows
          → any (λ s. comment_key.same_key r s) rows ≡ false
      no_other [] h = refl
      no_other (s ∷ rows) h = ground (arith, no_other rows h.1)

  -- The rows of a harvest never touch one row of the table twice, so that the database accepts
  -- their statement as one, and every identifier in them fits its column.
  pub comment_rows_lem :
      (payload : Members) {rows : List CommentRecord}
      → comment_rows calendar o payload ≡ some rows
      → (has_twice comment_key rows ≡ false) × All FitsColumns rows
  unfolding comment_rows
  comment_rows_lem payload {rows} h = comments_of_lem (get_member "comments" payload) h
    where
      comments_of_lem :
          (v : Json)
          → comments_of calendar o v ≡ some rows
          → (has_twice comment_key rows ≡ false) × All FitsColumns rows
      comments_of_lem (array items) h =
          let g = comment_loop-IsGood items [] (tt, tt) h in (IsDistinct-has_twice rows g.0, g.1)
      comments_of_lem null h = cc
      comments_of_lem (boolean b) h = cc
      comments_of_lem (number n) h = cc
      comments_of_lem (real s b) h = cc
      comments_of_lem (text s) h = cc
      comments_of_lem (object m) h = cc
