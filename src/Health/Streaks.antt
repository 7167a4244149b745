-- ===== src/Health/Streaks.antt =====
-- What the status of a source says about the attempts that were recorded for it.
use yt_scrapper.Base.{
  ℕ, suc, ◌+◌, ◌≤◌, ◌<◌, String, Bool, true, false, not, ◌&&◌, ◌||◌, is_some, All, Option, some,
  List, [], ◌∷◌, Time, same, if◌then◌else◌, arith, eq_iff, ◌≡◌, refl, ◌∙◌, ◌⊎◌, inl, inr,
  Bool-cases, Option-cases,
}
use native.Mathlib.Nat.{add-zero}
use yt_scrapper.Models.Rows.{same_self}
use yt_scrapper.Errors.{Failure}
use yt_scrapper.Health.{
  SourceHealth, counts_against_the_source, find_source, save_source, source_or_new, observed_source,
  record_source, Status, blocked, broken, degraded, stale, healthy, status, status_of, broken_after,
}

observed_source-kind :
    (b : Bool) (e : Option Failure) (now : Time) (r : SourceHealth)
    → (observed_source b e now r).kind ≡ r.kind
unfolding observed_source
observed_source-kind b e now r = ground arith

find_source-save_source :
    (k : String) (r : SourceHealth) (rows : List SourceHealth)
    → find_source k (save_source r rows) ≡ (if same r.kind k then some r else find_source k rows)
unfolding find_source save_source
find_source-save_source k r [] = refl
find_source-save_source k r (x ∷ rows) = ground (
  arith,
  eq_iff x.kind k,
  eq_iff x.kind r.kind,
  eq_iff r.kind k,
  find_source-save_source k r rows,
)

find_source-kind :
    (k : String) {r : SourceHealth} (rows : List SourceHealth)
    → find_source k rows ≡ some r
    → r.kind ≡ k
unfolding find_source
find_source-kind k [] e = cc
find_source-kind k {r} (x ∷ rows) e =
    ground (arith, eq_iff x.kind k, find_source-kind k {r = r} rows)

source_or_new-kind :
    (k : String) (rows : List SourceHealth) → (source_or_new k (find_source k rows)).kind ≡ k
source_or_new-kind k rows = elim (Option-cases (find_source k rows)) [
  | inl e ↦ rw e
  | inr (r, e) ↦ rw e (find_source-kind k rows e)
]

-- One recorded attempt: whether it succeeded, the error if not, and when.
pub record Attempt : Type 0 where
  pub succeeded : Bool
  pub error : Option Failure
  pub at : Time

abbrev is_counted_failure : Attempt → Bool
is_counted_failure a = not a.succeeded && counts_against_the_source a.error

abbrev pub after : String → List SourceHealth → Attempt → List SourceHealth
after k rows a = record_source k a.succeeded a.error a.at rows

unfoldable after_all : String → List SourceHealth → List Attempt → List SourceHealth
after_all k rows [] = rows
after_all k rows (a ∷ as') = after_all k (after k rows a) as'

-- How many of the attempts count against the source.
abbrev pub failures : List Attempt → ℕ
failures [] = 0
failures (a ∷ as') = let rest = failures as' in if is_counted_failure a then suc rest else rest

-- The row of a source after an attempt is the row that it had, observed; another row stays.
record_source-find :
    (k l : String) (b : Bool) (e : Option Failure) (now : Time) (rows : List SourceHealth)
    → find_source l (record_source k b e now rows) ≡ (
        if same k l && (b || counts_against_the_source e)
        then some (observed_source b e now (source_or_new k (find_source k rows)))
        else find_source l rows)
unfolding record_source
record_source-find k l b e now rows =
    let r = observed_source b e now (source_or_new k (find_source k rows)) in
    ground (
      arith,
      find_source-save_source l r rows,
      observed_source-kind b e now (source_or_new k (find_source k rows)),
      source_or_new-kind k rows,
      eq_iff k l,
      eq_iff r.kind l,
    )

-- The row of `k` has succeeded at some time, and has failed `n` times since.
abbrev HasFailed : String → ℕ → List SourceHealth → Type 0
HasFailed k n rows =
    (r : SourceHealth) × (find_source k rows ≡ some r)
    × (is_some r.last_success_at ≡ true)
    × (r.consecutive_failures ≡ n)

HasFailed-success :
    (k : String) (e : Option Failure) (t : Time) (rows : List SourceHealth)
    → HasFailed k 0 (record_source k true e t rows)
unfolding observed_source
HasFailed-success k e t rows =
    let r = observed_source true e t (source_or_new k (find_source k rows)) in
    (r, ground (arith, record_source-find k k true e t rows, same_self k), refl, refl)

HasFailed-attempt :
    (k : String) (n : ℕ) (a : Attempt) (rows : List SourceHealth)
    → a.succeeded ≡ false
    → HasFailed k n rows
    → HasFailed k (if is_counted_failure a then suc n else n) (after k rows a)
HasFailed-attempt k n a rows f (r, e, s, c) =
    let found = record_source-find k k a.succeeded a.error a.at rows in
    elim (Bool-cases (counts_against_the_source a.error)) [
      | inl p ↦ (
        observed_source false a.error a.at r,
        found ∙ rw (f, p, same_self k, e),
        unfold observed_source in s,
        rw (f, p) (unfold observed_source in ground arith),
      )
      | inr p ↦ (r, found ∙ rw (f, p, same_self k) e, s, rw (f, p) c)
    ]

HasFailed-All :
    (k : String) (n : ℕ) (as' : List Attempt) (rows : List SourceHealth)
    → All (λ a. a.succeeded ≡ false) as'
    → HasFailed k n rows
    → HasFailed k (n + failures as') (after_all k rows as')
unfolding after_all
HasFailed-All k n [] rows f h = rw add-zero h
HasFailed-All k n (a ∷ as') rows f h = elim (Bool-cases (is_counted_failure a)) [
  | inl p ↦
      let next : HasFailed k (suc n) (after k rows a) =
        rw p at (HasFailed-attempt k n a rows f.0 h) in
      let (r, e, s, c) = HasFailed-All k (suc n) as' (after k rows a) f.1 next in
      (r, e, s, rw p (omega (arith, c)))
  | inr p ↦
      let next : HasFailed k n (after k rows a) = rw p at (HasFailed-attempt k n a rows f.0 h) in
      rw p (HasFailed-All k n as' (after k rows a) f.1 next)
]

abbrev pub Follows : ℕ → Status → Type 0
Follows n s =
    ((broken_after ≤ n) × ((s ≡ broken) ⊎ (s ≡ blocked)))
    ⊎ ((1 ≤ n) × (n < broken_after) × (s ≡ degraded))
    ⊎ ((n ≡ 0) × ((s ≡ healthy) ⊎ (s ≡ stale)))

status_of-failures :
    (now stale_after : Time) (r : SourceHealth) (n : ℕ)
    → is_some r.last_success_at ≡ true
    → r.consecutive_failures ≡ n
    → Follows n (status_of stale_after now r)
status_of-failures now stale_after r n s c = ground arith

-- After a success and then attempts of which none succeeded, the status follows the number of
-- failures among them that count against the source: three or more make it broken or blocked, one
-- or two make it degraded, and with none it is healthy, or stale if the success is long past.
status-after_all :
    (k : String) (e : Option Failure) (t now stale_after : Time) (rows : List SourceHealth)
    (as' : List Attempt)
    → All (λ a. a.succeeded ≡ false) as'
    → Follows
        (failures as')
        (status stale_after now (find_source k (after_all k (record_source k true e t rows) as')))
unfolding status
status-after_all k e t now stale_after rows as' f =
    let (r, found, s, c) =
      HasFailed-All k 0 as' (record_source k true e t rows) f (HasFailed-success k e t rows) in
    rw found (status_of-failures now stale_after r (failures as') s (omega (arith, c)))
