-- ===== src/Retention/Prune.antt =====
-- What a prune keeps, and when it refuses.
use yt_scrapper.Base.{
  select-select, select-cong, ◌+◌, ◌-◌, String, Bool, true, false, not, ◌&&◌, ◌||◌, List, [], ◌∷◌,
  ltb, same, contains, select, length, any, arith, ◌≡◌, refl, sym, subst, inl, inr, Bool-cases,
  eq_iff, ◌∙◌, ap, ◌≢◌,
}
use yt_scrapper.Errors.{ok, err, configuration, text}
use yt_scrapper.Retention.{
  Artifact, StoredFile, RetentionPolicy, Store, Readings, RetentionOutcome, is_at, delete,
  is_orphan, sweep_orphans, refuses_without_an_index, refuses_disproportionately, digests,
  is_expiring, delete_doomed, live_rows, expiring_rows, pruned, prune, sum_sizes,
}

select-all {ℓ} : {A : Type ℓ} (xs : List A) → select (λ _. true) xs ≡ xs
select-all [] = refl
select-all (x ∷ xs) = ap (λ r. x ∷ r) (select-all xs)

-- Whether a row stands at a file's place while no live row has its digest.
abbrev is_doomed : List String → List Artifact → StoredFile → Bool
is_doomed live expiring f =
    not (contains f.digest live) && any (λ a. is_at a.kind a.digest f) expiring

is_doomed-live :
    (live : List String) (a : Artifact) (expiring : List Artifact) (f : StoredFile)
    → contains a.digest live ≡ true
    → not (is_doomed live expiring f) ≡ not (is_doomed live (a ∷ expiring) f)
is_doomed-live live a expiring f h = elim (Bool-cases (same f.digest a.digest)) [
  | inl q ↦
      let d : f.digest ≡ a.digest = (eq_iff f.digest a.digest).0 q in
      let c : contains f.digest live ≡ true = rw d h in rw c
  | inr q ↦ ground arith
]

is_doomed-dead :
    (live : List String) (a : Artifact) (expiring : List Artifact) (f : StoredFile)
    → contains a.digest live ≡ false
    → (not (is_at a.kind a.digest f) && not (is_doomed live expiring f))
      ≡ not (is_doomed live (a ∷ expiring) f)
is_doomed-dead live a expiring f h = elim (Bool-cases (same f.digest a.digest)) [
  | inl q ↦
      let d : f.digest ≡ a.digest = (eq_iff f.digest a.digest).0 q in
      let c : contains f.digest live ≡ false = rw d h in rw c (ground arith)
  | inr q ↦ ground arith
]

-- The deletions leave exactly the files that are not doomed.
delete_doomed-select :
    (live : List String) (expiring : List Artifact) (files : List StoredFile)
    → delete_doomed live expiring files ≡ select (λ f. not (is_doomed live expiring f)) files
unfolding delete_doomed
delete_doomed-select live [] files = sym (
    select-cong (λ f. not (is_doomed live [] f)) (λ _. true) files (λ f. ground arith)
    ∙ select-all files)
delete_doomed-select live (a ∷ expiring) files = elim (Bool-cases (contains a.digest live)) [
  | inl h ↦ rw h (
      delete_doomed-select live expiring files
      ∙ select-cong _ _ files (λ f. is_doomed-live live a expiring f h))
  | inr h ↦ rw h (
      delete_doomed-select live expiring (delete a.kind a.digest files)
      ∙ (unfold delete in
          select-select (λ f. not (is_doomed live expiring f)) (λ f. not (is_at a.kind a.digest f))
            files)
      ∙ select-cong _ _ files (λ f. is_doomed-dead live a expiring f h))
]

module _ (policy : RetentionPolicy) (t : Readings) (s : Store) where
  abbrev live : List String
  live = digests (live_rows policy t.cutoff_at s.rows)

  -- The files that a prune is to keep: those whose digest a row names that stays; and of the others
  -- those that no row which goes had its payload in, and whose grace period is not over.
  abbrev survives : StoredFile → Bool
  survives f =
      contains f.digest live
      || (not (any (λ a. is_at a.kind a.digest f) (expiring_rows policy t.cutoff_at s.rows))
          && ltb t.swept_at (f.modified_at + policy.orphan_grace))

  pruned-survives :
      (f : StoredFile)
      → (not (is_doomed live (expiring_rows policy t.cutoff_at s.rows) f)
          && not (is_orphan policy t.swept_at live f))
        ≡ survives f
  unfolding is_orphan
  pruned-survives f = ground arith

  pruned-files : (pruned policy t s).1.files ≡ select survives s.files
  unfolding pruned sweep_orphans
  pruned-files =
      let expiring = expiring_rows policy t.cutoff_at s.rows in
      ap (select (λ f. not (is_orphan policy t.swept_at live f)))
        (delete_doomed-select live expiring s.files)
      ∙ select-select _ _ s.files
      ∙ select-cong _ _ s.files pruned-survives

  -- The two refusals.
  abbrev refuses : Bool
  refuses =
      refuses_without_an_index policy s
      || refuses_disproportionately policy t.judged_at
          (length s.rows - length (expiring_rows policy t.cutoff_at s.rows)) (digests s.rows)
          s.files

  prune-pruned :
      {outcome : RetentionOutcome} {s' : Store}
      → prune policy t s ≡ ok (outcome, s')
      → pruned policy t s ≡ (outcome, s')
  unfolding prune
  prune-pruned e = ground arith

  length-select :
      (p : Artifact → Bool) (xs : List Artifact)
      → length (select p xs) + length (select (λ a. not (p a)) xs) ≡ length xs
  length-select p [] = omega arith
  length-select p (x ∷ xs) = ground (arith, length-select p xs)

  pruned-outcome :
      let (outcome, s') = pruned policy t s in
      (s'.rows ≡ live_rows policy t.cutoff_at s.rows)
      × (outcome.artifacts_removed ≡ length (expiring_rows policy t.cutoff_at s.rows))
      × (outcome.total_bytes ≡ sum_sizes s'.files)
      × (outcome.over_ceiling ≡ ltb policy.maximum_bytes (sum_sizes s'.files))
  unfolding pruned sweep_orphans
  pruned-outcome = (refl, refl, refl, refl)

  -- What a prune that goes through has done, by its result.
  abbrev pub IsPruned : RetentionOutcome × Store → Type 0
  IsPruned (outcome, s') =
      (s'.rows ≡ live_rows policy t.cutoff_at s.rows)
      × (s'.files ≡ select survives s.files)
      × (outcome.artifacts_removed + length s'.rows ≡ length s.rows)
      × (outcome.total_bytes ≡ sum_sizes s'.files)
      × (outcome.over_ceiling ≡ ltb policy.maximum_bytes (sum_sizes s'.files))

  pruned-IsPruned : IsPruned (pruned policy t s)
  pruned-IsPruned =
      let (rows, removed, total, over) = pruned-outcome in
      let counted = length-select (is_expiring policy t.cutoff_at) s.rows in
      (rows, pruned-files, rw (rows, removed) counted, total, over)

  -- A prune that goes through keeps exactly the rows within the age and exactly the files that
  -- survive, which include every payload that a row which stays names; and it reports the number of
  -- rows it removed, the bytes of the files that are left, and whether those are over the ceiling.
  pub prune-ok :
      {outcome : RetentionOutcome} {s' : Store}
      → prune policy t s ≡ ok (outcome, s')
      → IsPruned (outcome, s')
  prune-ok {outcome} {s'} e =
      subst IsPruned (prune-pruned {outcome = outcome} {s' = s'} e) pruned-IsPruned

  -- With no rows in the index, and without the operator's word that there is none, a prune is
  -- refused as a configuration error unless there are no files either.
  prune-empty_index :
      s.rows ≡ []
      → s.files ≢ []
      → policy.sweep_without_an_index ≡ false
      → prune policy t s ≡ err configuration (text "the artifact index is empty")
  unfolding prune refuses_without_an_index
  prune-empty_index e f p = ground arith
