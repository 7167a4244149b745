-- ===== src/Watchlist/Lines.antt =====
-- A list is read whole, or refused by the first line that cannot be read.
use yt_scrapper.Base.{
  ℕ, suc, String, true, false, List, [], ◌∷◌, ◌≡◌, refl, sym, subst, ◌↔◌, inl, inr, Bool-cases,
}
use yt_scrapper.Errors.{Result, ok, err, and_then}
use yt_scrapper.Watchlist.{
  Directive, FileText, decoded, unreadable, undecodable, Methods, directive, is_skipped, read_lines,
  read_watchlist,
}
use yt_scrapper.Collection.State.{returned, attempt_of}

module _ (methods : Methods) where
  open methods use {strip}

  -- Every line in turn is passed over, or is a directive, under the number that it has in the file.
  pub data Reads : ℕ → List String → List Directive → Type 0 where
    done : {n : ℕ} → Reads n [] []
    skips :
        {n : ℕ} {line : String} {lines : List String} {ds : List Directive}
        → is_skipped methods line ≡ true
        → Reads (suc n) lines ds
        → Reads n (line ∷ lines) ds
    reads :
        {n : ℕ} {line : String} {lines : List String} {d : Directive} {ds : List Directive}
        → is_skipped methods line ≡ false
        → directive methods (strip line) n ≡ ok d
        → Reads (suc n) lines ds
        → Reads n (line ∷ lines) (d ∷ ds)

  with_rest :
      (r : Result Directive) (rest : Result (List Directive)) {ds : List Directive}
      → and_then r (λ d. and_then rest (λ ds. ok (d ∷ ds))) ≡ ok ds
      → (d : Directive) × (ds' : List Directive) × (r ≡ ok d) × (rest ≡ ok ds') × (ds ≡ d ∷ ds')
  with_rest (ok d) (ok ds') h = (d, ds', refl, refl, cc)
  with_rest (ok d) (err c m) h = cc
  with_rest (err c m) rest h = cc

  read_lines-Reads :
      (n : ℕ) (lines : List String) {ds : List Directive}
      → read_lines methods n lines ≡ ok ds
      → Reads n lines ds
  unfolding read_lines
  read_lines-Reads n [] {ds} h = let nothing : [] ≡ ds = cc in subst (Reads n []) nothing done
  read_lines-Reads n (line ∷ lines) {ds} h = elim (Bool-cases (is_skipped methods line)) [
    | inl e ↦ skips e (read_lines-Reads (suc n) lines (rw e at h))
    | inr e ↦
        let (d, ds', read, rest, split) =
          with_rest (directive methods (strip line) n) (read_lines methods (suc n) lines)
            (rw e at h) in
        subst (Reads n (line ∷ lines)) (sym split)
          (reads e read (read_lines-Reads (suc n) lines rest))
  ]

  Reads-read_lines :
      (n : ℕ) (lines : List String) (ds : List Directive)
      → Reads n lines ds
      → read_lines methods n lines ≡ ok ds
  unfolding read_lines
  Reads-read_lines n lines ds done = refl
  Reads-read_lines n lines ds (skips e rest) = rw (e) (Reads-read_lines (suc n) _ ds rest)
  Reads-read_lines n lines ds (reads e read rest) =
      rw (e, read, Reads-read_lines (suc n) _ _ rest) refl

  attempt_of-returned :
      (r : Result (List Directive)) {ds : List Directive} → attempt_of r ≡ returned ds → r ≡ ok ds
  attempt_of-returned (ok ds') h = cc
  attempt_of-returned (err c m) h = cc

  -- A list is read exactly when its file is, as text, and each of its lines, in order, is blank, a
  -- comment or a directive; and what is read are the directives, each under the number of its line:
  -- one line that cannot be read refuses the whole list.
  pub read_watchlist-Reads :
      (file : FileText) (ds : List Directive)
      → (read_watchlist methods file ≡ returned ds)
        ↔ ((lines : List String) × (file ≡ decoded lines) × Reads 1 lines ds)
  unfolding read_watchlist
  read_watchlist-Reads file ds = (reads_of file, of_reads)
    where
      reads_of :
          (file : FileText)
          → read_watchlist methods file ≡ returned ds
          → (lines : List String) × (file ≡ decoded lines) × Reads 1 lines ds
      reads_of (decoded lines) h = (
        lines,
        refl,
        read_lines-Reads 1 lines (attempt_of-returned (read_lines methods 1 lines) h),
      )
      reads_of unreadable h = cc
      reads_of undecodable h = cc

      of_reads :
          (lines : List String) × (file ≡ decoded lines) × Reads 1 lines ds
          → read_watchlist methods file ≡ returned ds
      of_reads (lines, e, r) = rw (e, Reads-read_lines 1 lines ds r) refl
