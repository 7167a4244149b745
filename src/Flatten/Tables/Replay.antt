-- ===== src/Flatten/Tables/Replay.antt =====
-- Writing the same statements again changes nothing.
use yt_scrapper.Base.{
  Bool, true, Option, none, some, List, [], ◌∷◌, not, ◌&&◌, ◌||◌, All, All-mono, arith, ◌≡◌, refl,
  inl, inr, Bool-cases, if◌then◌else◌,
}
use yt_scrapper.Flatten.Tables.{Tables, Statement, touches_twice, write, execute}
use yt_scrapper.Flatten.Tables.Held.{Held, write-Held, Held-write, Held-write_self}

module _ (refuses : Statement → Bool) where
  -- What the savepoint of one artifact leaves, and those of several in turn.
  abbrev pub or_unchanged : Tables → Option Tables → Tables
  or_unchanged t none = t
  or_unchanged t (some t') = t'

  abbrev pub write_artifact : List Statement → Tables → Tables
  write_artifact ss t = or_unchanged t (execute refuses ss t)

  abbrev pub write_artifacts : List (List Statement) → Tables → Tables
  write_artifacts [] t = t
  write_artifacts (ss ∷ works) t = write_artifacts works (write_artifact ss t)

  abbrev is_accepted : List Statement → Bool
  is_accepted [] = true
  is_accepted (s ∷ ss) = not (touches_twice s || refuses s) && is_accepted ss

  abbrev write_each : List Statement → Tables → Tables
  write_each [] t = t
  write_each (s ∷ ss) t = write_each ss (write s t)

  -- Whether the statements are refused does not depend on the tables.
  execute-write_each :
      (ss : List Statement) (t : Tables)
      → execute refuses ss t ≡ (if is_accepted ss then some (write_each ss t) else none)
  unfolding execute
  execute-write_each [] t = refl
  execute-write_each (s ∷ ss) t = ground (arith, execute-write_each ss (write s t))

  AllHeld-write_each :
      (us ss : List Statement) (t : Tables)
      → All (λ s. Held s t) us
      → All (λ s. Held s (write_each ss t)) us
  AllHeld-write_each us [] t h = h
  AllHeld-write_each us (s ∷ ss) t h =
      AllHeld-write_each us ss (write s t) (All-mono us (λ u. Held-write u s t) h)

  Held-write_each :
      (u : Statement) (ss : List Statement) (t : Tables) → Held u t → Held u (write_each ss t)
  Held-write_each u [] t h = h
  Held-write_each u (s ∷ ss) t h = Held-write_each u ss (write s t) (Held-write u s t h)

  AllHeld-write_each_self :
      (ss : List Statement) (t : Tables) → All (λ s. Held s (write_each ss t)) ss
  AllHeld-write_each_self [] t = tt
  AllHeld-write_each_self (s ∷ ss) t = (
    Held-write_each s ss (write s t) (Held-write_self s t),
    AllHeld-write_each_self ss (write s t),
  )

  write_each-Held :
      (ss : List Statement) (t : Tables) → All (λ s. Held s t) ss → write_each ss t ≡ t
  write_each-Held [] t h = refl
  write_each-Held (s ∷ ss) t h = rw (write-Held s t h.0) (write_each-Held ss t h.1)

  -- The rows of an artifact are held, unless they are refused.
  abbrev IsWritten : List Statement → Tables → Type 0
  IsWritten ss t = is_accepted ss ≡ true → All (λ s. Held s t) ss

  IsWritten-write_artifact :
      (us ss : List Statement) (t : Tables) → IsWritten us t → IsWritten us (write_artifact ss t)
  IsWritten-write_artifact us ss t h a = elim (Bool-cases (is_accepted ss)) [
    | inl e ↦ rw (execute-write_each ss t, e) (AllHeld-write_each us ss t (h a))
    | inr e ↦ rw (execute-write_each ss t, e) (h a)
  ]

  IsWritten-write_artifact_self :
      (ss : List Statement) (t : Tables) → IsWritten ss (write_artifact ss t)
  IsWritten-write_artifact_self ss t a =
      rw (execute-write_each ss t, a) (AllHeld-write_each_self ss t)

  write_artifact-IsWritten :
      (ss : List Statement) (t : Tables) → IsWritten ss t → write_artifact ss t ≡ t
  write_artifact-IsWritten ss t h = elim (Bool-cases (is_accepted ss)) [
    | inl e ↦ rw (execute-write_each ss t, e) (write_each-Held ss t (h e))
    | inr e ↦ rw (execute-write_each ss t, e)
  ]

  IsWritten-write_artifacts :
      (us : List Statement) (works : List (List Statement)) (t : Tables)
      → IsWritten us t
      → IsWritten us (write_artifacts works t)
  IsWritten-write_artifacts us [] t h = h
  IsWritten-write_artifacts us (ss ∷ works) t h =
      IsWritten-write_artifacts us works (write_artifact ss t) (IsWritten-write_artifact us ss t h)

  AllIsWritten-write_artifacts :
      (works later : List (List Statement)) (t : Tables)
      → All (λ us. IsWritten us (write_artifacts later (write_artifacts works t))) works
  AllIsWritten-write_artifacts [] later t = tt
  AllIsWritten-write_artifacts (ss ∷ works) later t = (
    IsWritten-write_artifacts ss later (write_artifacts works (write_artifact ss t)) (
        IsWritten-write_artifacts ss works (write_artifact ss t)
          (IsWritten-write_artifact_self ss t)),
    AllIsWritten-write_artifacts works later (write_artifact ss t),
  )

  write_artifacts-AllIsWritten :
      (works : List (List Statement)) (t : Tables)
      → All (λ us. IsWritten us t) works
      → write_artifacts works t ≡ t
  write_artifacts-AllIsWritten [] t h = refl
  write_artifacts-AllIsWritten (ss ∷ works) t h =
      rw (write_artifact-IsWritten ss t h.0) (write_artifacts-AllIsWritten works t h.1)

  -- Reading again what was written before, after any later artifacts have been written too, changes
  -- no table: an older comment or transcript never replaces a newer one.
  pub write_artifacts_replay :
      (works later : List (List Statement)) (t : Tables)
      → let u = write_artifacts later (write_artifacts works t) in write_artifacts works u ≡ u
  write_artifacts_replay works later t =
      write_artifacts-AllIsWritten works (write_artifacts later (write_artifacts works t))
        (AllIsWritten-write_artifacts works later t)
