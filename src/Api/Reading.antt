-- ===== src/Api/Reading.antt =====
-- What a client reads that follows the cursors of a ledger, and that asks while the ledger stays.
use yt_scrapper.Base.{
  ℕ, suc, ◌<◌, String, Bool, true, Option, none, some, List, Time, ◌&&◌, length, map, select,
  select-cong, ◌>>=◌, arith, ◌≡◌, refl, ap, ◌∙◌,
}
use yt_scrapper.Errors.{ok}
use yt_scrapper.Collection.State.{Attempt, returned, raised, crashed}
use yt_scrapper.Models.{Job}
use yt_scrapper.Artifacts.{Artifact}
use yt_scrapper.Keyset.{Cursor, CollationLaws, KeysetLaws, DistinctKeys, ordered}
use yt_scrapper.Keyset.Order.{precedes_laws, reverse_laws, length-ordered}
use yt_scrapper.Keyset.Pages.{
  Page, matching, page_at, page, page-eq-some, read_pages, map_page, read_pages-matching,
  read_pages-map,
}
use yt_scrapper.Api.Cursors.{
  Codec, CodecLaws, encode_cursor, decode_cursor-encode_cursor, is_empty-encode_cursor,
}
use yt_scrapper.Api.Listing.{
  aware_time_bound, given, shown, is_newer, cursor_of, given_cursor, JobFilter, is_listed, job_view,
  job_key, listed_jobs, list_jobs, ArtifactFilter, is_listed_artifact, artifact_view, artifact_key,
  listed_artifacts, list_artifacts,
}

given-shown :
    {A B : Type 0} (r : Attempt A) (f : A → B) → given (shown r f) ≡ (given r >>= λ a. some (f a))
given-shown (returned a) f = refl
given-shown (raised c m) f = refl
given-shown crashed f = refl

module _ (codec : Codec) (laws : CodecLaws codec) (earlier : String → String → Bool)
    (collation : CollationLaws earlier) where
  newer_laws : KeysetLaws (is_newer codec earlier)
  newer_laws = reverse_laws _ (precedes_laws earlier collation)

  cursor_of-encode_cursor :
      (c : Cursor) → given_cursor codec earlier (some (encode_cursor codec c)) ≡ some (some c)
  unfolding cursor_of
  cursor_of-encode_cursor (t, i) =
      rw (is_empty-encode_cursor codec laws t i, decode_cursor-encode_cursor codec laws t i)

  matching-none :
      {A : Type 0} (key : A → Cursor) (p : A → Bool) (rows : List A)
      → matching key
          (is_newer codec earlier)
          (encode_cursor codec)
          (given_cursor codec earlier)
          p
          none
          rows
        ≡ ordered key (is_newer codec earlier) (select p rows)
  unfolding matching
  matching-none key p rows =
      ap (ordered key (is_newer codec earlier))
        (select-cong (λ a. p a && true) p rows (λ a. ground arith))

  -- The pages of any ledger, as a client is shown them, are its rows that match, each once and in
  -- order.
  read_pages-ordered :
      {A B : Type 0} (key : A → Cursor) (view : A → B) (p : A → Bool) (k : ℕ) (rows : List A)
      (ask : Option String → Option (Page B)) (n : ℕ)
      → DistinctKeys key rows
      → ((s : Option String)
          → ask s ≡ (
              given_cursor codec earlier s >>= λ c. some (
                map_page view (
                  page_at key
                    (is_newer codec earlier)
                    (encode_cursor codec)
                    (given_cursor codec earlier)
                    p
                    (suc k)
                    rows
                    c))))
      → length (select p rows) < n
      → read_pages ask n none
        ≡ some (map view (ordered key (is_newer codec earlier) (select p rows)))
  read_pages-ordered {A = A} key view p k rows ask n d asks lt =
      let newer = is_newer codec earlier in
      let all = ordered key newer (select p rows) in
      read_pages-map view
        (page key newer (encode_cursor codec) (given_cursor codec earlier) p (suc k) rows) ask shows
        n none all
        (read_pages-matching key newer newer_laws (encode_cursor codec) (given_cursor codec earlier)
          cursor_of-encode_cursor p k rows n none none all d (unfold cursor_of in refl)
          (matching-none key p rows) (rw (length-ordered key newer (select p rows)) lt))
    where
      shows :
          (s : Option String) (pg : Page A)
          → page key
              (is_newer codec earlier)
              (encode_cursor codec)
              (given_cursor codec earlier)
              p
              (suc k)
              rows
              s
            ≡ some pg
          → ask s ≡ some (map_page view pg)
      shows s pg h =
          let (c, e, e') =
            page-eq-some key (is_newer codec earlier) (encode_cursor codec)
              (given_cursor codec earlier) p (suc k) rows s h in
          asks s ∙ rw (e) (ap (λ pg. some (map_page view pg)) e')

  -- A client that follows the cursors of the job ledger, while it stays as it is, reads each job
  -- that matches its filter exactly once, newest first, whatever the size of its pages, and comes to
  -- an end: one page more than there are such jobs is enough. No identifier is listed twice, the
  -- bounds on the time carry an offset, a page has at least one row, the encodings of a cursor read
  -- back, and the database's order of identifiers is total.
  pub read_pages-list_jobs :
      (f : JobFilter) (since until : Option Time) (k n : ℕ) (jobs : List Job)
      → DistinctKeys job_key jobs
      → aware_time_bound "since" f.since ≡ ok since
      → aware_time_bound "until" f.until ≡ ok until
      → length (select (is_listed f since until) jobs) < n
      → read_pages (λ s. given (list_jobs codec earlier f (suc k) s jobs)) n none
        ≡ some (
            map job_view
              (ordered job_key (is_newer codec earlier) (select (is_listed f since until) jobs)))
  unfolding list_jobs listed_jobs
  read_pages-list_jobs f since until k n jobs d e e' lt =
      read_pages-ordered job_key job_view (is_listed f since until) k jobs
        (λ s. given (list_jobs codec earlier f (suc k) s jobs)) n d
        (λ s.
          rw (e, e')
            (given-shown (cursor_of codec earlier s)
              (listed_jobs codec earlier f (suc k) since until jobs)))
        lt

  -- The same of the ledger of what was collected.
  read_pages-list_artifacts :
      (f : ArtifactFilter) (since until : Option Time) (k n : ℕ) (rows : List Artifact)
      → DistinctKeys artifact_key rows
      → aware_time_bound "since" f.since ≡ ok since
      → aware_time_bound "until" f.until ≡ ok until
      → length (select (is_listed_artifact f since until) rows) < n
      → read_pages (λ s. given (list_artifacts codec earlier f (suc k) s rows)) n none
        ≡ some (
            map artifact_view (
              ordered artifact_key
                (is_newer codec earlier)
                (select (is_listed_artifact f since until) rows)))
  unfolding list_artifacts listed_artifacts
  read_pages-list_artifacts f since until k n rows d e e' lt =
      read_pages-ordered artifact_key artifact_view (is_listed_artifact f since until) k rows
        (λ s. given (list_artifacts codec earlier f (suc k) s rows)) n d
        (λ s.
          rw (e, e')
            (given-shown (cursor_of codec earlier s)
              (listed_artifacts codec earlier f (suc k) since until rows)))
        lt
