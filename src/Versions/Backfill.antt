-- ===== src/Versions/Backfill.antt =====
-- What a backfill stamps, and what it counts.
use yt_scrapper.Base.{
  true, contains, same, some-inj, Bool-cases, length-drop, ℕ, zero, suc, ◌+◌, ◌≤◌, String, false,
  Option, none, some, List, [], ◌∷◌, map, length, select, take, drop, if◌then◌else◌, All, arith,
  ◌≡◌, ◌≢◌, refl, sym, ◌∙◌, ap, eq_iff, inl, inr, ◌⊎◌, Option-cases,
}
use text.Mathlib.TextPositions.{eq_refl}
use yt_scrapper.Registry.{Registry}
use yt_scrapper.Artifacts.{Artifact}
use yt_scrapper.Collection.State.{Question}
use yt_scrapper.Flatten.Service.{count_kind}
use yt_scrapper.Artifacts.{DistinctIds}
use yt_scrapper.Versions.{
  batch_size, is_pending, sum_counts, stamped, stamp_all, write_batches, attribute, resolve,
  unattributed_of, backfill, candidates, first_match,
}

sum_counts-count_kind :
    (kind : String) (counts : List (String × ℕ))
    → sum_counts (count_kind kind counts) ≡ suc (sum_counts counts)
unfolding count_kind
sum_counts-count_kind kind [] = refl
sum_counts-count_kind kind ((k, n) ∷ counts) = ground (arith, sum_counts-count_kind kind counts)

-- Batches one after another are one batch.
stamp_all-take :
    (n : ℕ) (resolved : List (String × String)) (rows : List Artifact)
    → stamp_all (drop n resolved) (stamp_all (take n resolved) rows) ≡ stamp_all resolved rows
unfolding stamp_all
stamp_all-take zero resolved rows = refl
stamp_all-take (suc n) [] rows = refl
stamp_all-take (suc n) (r ∷ resolved) rows = stamp_all-take n resolved (map (stamped r) rows)

write_batches-stamp_all :
    (n : ℕ) (resolved : List (String × String)) (rows : List Artifact)
    → length resolved ≤ n
    → write_batches n resolved rows ≡ stamp_all resolved rows
unfolding write_batches stamp_all
write_batches-stamp_all zero [] rows h = refl
write_batches-stamp_all zero (r ∷ resolved) rows h = absurd (omega arith)
write_batches-stamp_all (suc n) [] rows h = refl
write_batches-stamp_all (suc n) (r ∷ resolved) rows h =
    write_batches-stamp_all n (drop batch_size (r ∷ resolved))
      (stamp_all (take batch_size (r ∷ resolved)) rows) (omega (arith, length-drop 499 resolved, h))
    ∙ stamp_all-take batch_size (r ∷ resolved) rows

stamp_each : List (String × String) → Artifact → Artifact
stamp_each [] a = a
stamp_each (r ∷ resolved) a = stamp_each resolved (stamped r a)

map-map :
    (f g : Artifact → Artifact) (xs : List Artifact) → map f (map g xs) ≡ map (λ a. f (g a)) xs
map-map f g [] = refl
map-map f g (x ∷ xs) = cc (map-map f g xs)

map-same : (xs : List Artifact) → map (λ a. a) xs ≡ xs
map-same [] = refl
map-same (x ∷ xs) = cc (map-same xs)

stamp_all-map :
    (resolved : List (String × String)) (rows : List Artifact)
    → stamp_all resolved rows ≡ map (stamp_each resolved) rows
unfolding stamp_all stamp_each
stamp_all-map [] rows = sym (map-same rows)
stamp_all-map (r ∷ resolved) rows =
    stamp_all-map resolved (map (stamped r) rows) ∙ map-map (stamp_each resolved) (stamped r) rows

-- A stamp of another row changes nothing.
map-stamp_each :
    (k version : String) (resolved : List (String × String)) (xs : List Artifact)
    → All (λ b. k ≢ b.identifier) xs
    → map (stamp_each ((k, version) ∷ resolved)) xs ≡ map (stamp_each resolved) xs
unfolding stamp_each
map-stamp_each k version resolved [] h = refl
map-stamp_each k version resolved (x ∷ xs) h =
    ground (arith, eq_iff x.identifier k, h.0, map-stamp_each k version resolved xs h.1)

stamp_each-skip :
    (k version : String) (resolved : List (String × String)) (a : Artifact)
    → k ≢ a.identifier
    → stamp_each ((k, version) ∷ resolved) a ≡ stamp_each resolved a
unfolding stamp_each
stamp_each-skip k version resolved a n = ground (arith, eq_iff a.identifier k)

stamp_each_self :
    (a : Artifact) (version : String) (resolved : List (String × String))
    → stamp_each ((a.identifier, version) ∷ resolved) a
      ≡ stamp_each resolved (record a { schema_version = some version })
unfolding stamp_each
stamp_each_self a version resolved = simp (eq_refl)

module _ (hash : Question → String) (registry : Registry) where
  -- A row that names no version, with the version that its fingerprint agrees with, if one does.
  abbrev with_version : Artifact → Option String → Artifact
  with_version a none = a
  with_version a (some version) = record a { schema_version = some version }

  -- The fingerprint of a row under a version, without parameters.
  abbrev pub fingerprint_at : Artifact → String → String
  fingerprint_at a version =
      hash (record { kind = a.kind; target = a.target; schema_version = version; parameters = [] })

  abbrev pub restamped : Artifact → Artifact
  restamped a = if is_pending a then with_version a (attribute hash registry a) else a

  -- What a row becomes: stamped with a version of its kind whose fingerprint it has, if it names no
  -- version; and left as it is, if it names one or if no version of its kind has that fingerprint.
  abbrev pub IsRestamped : Artifact → Artifact → Type 0
  IsRestamped a a' =
      ((version : String) × (a.schema_version ≡ none)
        × (contains version (candidates hash registry a.kind) ≡ true)
        × (a.fingerprint ≡ fingerprint_at a version)
        × (a' ≡ record a { schema_version = some version }))
      ⊎ ((a' ≡ a)
          × ((a.schema_version ≢ none)
              ⊎ All (λ version. a.fingerprint ≢ fingerprint_at a version)
                  (candidates hash registry a.kind)))

  first_match-some :
      (a : Artifact) (versions : List String) {version : String}
      → first_match hash registry a versions ≡ some version
      → (contains version versions ≡ true) × (a.fingerprint ≡ fingerprint_at a version)
  unfolding first_match
  first_match-some a [] h = cc
  first_match-some a (v ∷ versions) {version} h =
      elim (Bool-cases (same a.fingerprint (fingerprint_at a v))) [
        | inl e ↦
            let q : v ≡ version = some-inj (rw e at h) in
            (
              rw (← q, eq_refl v) refl,
              (eq_iff a.fingerprint (fingerprint_at a v)).0 e ∙ ap (fingerprint_at a) q,
            )
        | inr e ↦
            let (m, q) = first_match-some a versions {version = version} (rw e at h) in
            (ground (arith, m), q)
      ]

  first_match-none :
      (a : Artifact) (versions : List String)
      → first_match hash registry a versions ≡ none
      → All (λ version. a.fingerprint ≢ fingerprint_at a version) versions
  unfolding first_match
  first_match-none a [] h = tt
  first_match-none a (v ∷ versions) h =
      elim (Bool-cases (same a.fingerprint (fingerprint_at a v))) [
        | inl e ↦ (let q : some v ≡ none = rw e at h in cc)
        | inr e ↦ (
          λ q. absurd (cc (e, (eq_iff a.fingerprint (fingerprint_at a v)).1 q)),
          first_match-none a versions (rw e at h),
        )
      ]

  restamped-IsRestamped : (a : Artifact) → IsRestamped a (restamped a)
  unfolding attribute
  restamped-IsRestamped a = elim (Option-cases a.schema_version) [
    | inl e ↦ elim (Option-cases (attribute hash registry a)) [
      | inl e' ↦
          inr (rw (e, e') refl, inr (first_match-none a (candidates hash registry a.kind) e'))
      | inr (version, e') ↦
          let (m, q) = first_match-some a (candidates hash registry a.kind) e' in
          inl (version, e, m, q, rw (e, e') refl)
    ]
    | inr (version, e) ↦ inr (rw (e) refl, inl (λ q. cc (e, q)))
  ]

  all-restamped : (rows : List Artifact) → All (λ a. IsRestamped a (restamped a)) rows
  all-restamped [] = tt
  all-restamped (a ∷ rows) = (restamped-IsRestamped a, all-restamped rows)

  -- What a row adds to what is resolved.
  resolve-cases :
      (x : Artifact) (xs : List Artifact)
      → let rest = resolve hash registry (select is_pending xs) in
        let resolved = resolve hash registry (select is_pending (x ∷ xs)) in
        ((resolved ≡ rest) × (restamped x ≡ x))
        ⊎ ((version : String) × (resolved ≡ (x.identifier, version) ∷ rest)
            × (restamped x ≡ record x { schema_version = some version }))
  unfolding resolve
  resolve-cases x xs = elim (Option-cases x.schema_version) [
    | inl e ↦ elim (Option-cases (attribute hash registry x)) [
      | inl e' ↦ inl (rw (e, e') refl, rw (e, e') refl)
      | inr (version, e') ↦ inr (version, rw (e, e') refl, rw (e, e') refl)
    ]
    | inr (version, e) ↦ inl (rw (e) refl, rw (e) refl)
  ]

  stamp_each-other :
      (a : Artifact) (xs : List Artifact)
      → All (λ b. a.identifier ≢ b.identifier) xs
      → stamp_each (resolve hash registry (select is_pending xs)) a ≡ a
  unfolding stamp_each resolve
  stamp_each-other a [] h = refl
  stamp_each-other a (x ∷ xs) h = elim (resolve-cases x xs) [
    | inl (e, _) ↦ rw (e) (stamp_each-other a xs h.1)
    | inr (version, e, _) ↦
        rw
          (
            e,
            stamp_each-skip x.identifier version (resolve hash registry (select is_pending xs)) a
                (λ q. h.0 (sym q)),
          )
          (stamp_each-other a xs h.1)
  ]

  stamp_each-restamped :
      (rows : List Artifact)
      → DistinctIds rows
      → map (stamp_each (resolve hash registry (select is_pending rows))) rows ≡ map restamped rows
  unfolding resolve
  stamp_each-restamped [] h = refl
  stamp_each-restamped (x ∷ xs) h =
      let rest = resolve hash registry (select is_pending xs) in
      elim (resolve-cases x xs) [
        | inl (e, e') ↦
            ap (λ r. map (stamp_each r) (x ∷ xs)) e
            ∙ cc (e', stamp_each-other x xs h.0, stamp_each-restamped xs h.1)
        | inr (version, e, e') ↦
            let x' : Artifact = record x { schema_version = some version } in
            ap (λ r. map (stamp_each r) (x ∷ xs)) e
            ∙ cc (
              e',
              map-stamp_each x.identifier version rest xs h.0,
              stamp_each_self x version rest,
              stamp_each-other x' xs h.0,
              stamp_each-restamped xs h.1,
            )
      ]

  length-resolve :
      (pending : List Artifact) (counts : List (String × ℕ))
      → length (resolve hash registry pending)
          + sum_counts (unattributed_of hash registry pending counts)
        ≡ length pending + sum_counts counts
  unfolding resolve unattributed_of
  length-resolve [] counts = refl
  length-resolve (a ∷ pending) counts = elim (Option-cases (attribute hash registry a)) [
    | inl e ↦ rw (e) (
        omega (
          arith,
          length-resolve pending (count_kind a.kind counts),
          sum_counts-count_kind a.kind counts,
        ))
    | inr (version, e) ↦ rw (e) (omega (arith, length-resolve pending counts))
  ]

  -- A backfill over rows of distinct identifiers stamps each row that names no version with one of
  -- the versions of its kind, earlier or current, under which it has its fingerprint, if there is
  -- such a version, and changes no other row, in however many transactions; and each row it read is counted once, as attributed or under its kind.
  pub backfill_lem :
      (rows : List Artifact)
      → DistinctIds rows
      → let (outcome, rows') = backfill hash registry false rows in
        (rows' ≡ map restamped rows)
        × All (λ a. IsRestamped a (restamped a)) rows
        × (outcome.attributed + sum_counts outcome.unattributed ≡ outcome.scanned)
  unfolding backfill
  backfill_lem rows h =
      let resolved = resolve hash registry (select is_pending rows) in
      (
        write_batches-stamp_all (length resolved) resolved rows (omega arith)
            ∙ stamp_all-map resolved rows
            ∙ stamp_each-restamped rows h,
        all-restamped rows,
        length-resolve (select is_pending rows) [] ∙ omega arith,
      )
