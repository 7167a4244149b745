-- ===== src/Lifecycle/Sound.antt =====
-- What every write of the `jobs` table keeps: distinct keys, and attempts within what rows allow.
use yt_scrapper.Base.{
  ℕ, ◌+◌, ◌≤◌, String, Bool, true, false, Option, none, some, List, [], ◌∷◌, Time, arith, same, ◌≡◌,
  refl, sym, subst, inl, inr, Bool-cases, All-mono, is_some, eq_iff,
}
use yt_scrapper.Floats.{FloatOps}
use yt_scrapper.Models.{
  Job, Jobs, JobState, cancelled, failed, is_terminal, get, modify, update_where,
}
use yt_scrapper.Models.Rows.{
  KeepsKey, All-modify_to, All-modify_at, All-update_where, modify-Distinct, update_where-Distinct,
  append-Distinct, All-get,
}
use yt_scrapper.Queue.{
  claim, taken, is_untaken, candidate, claim_candidate, cancel, cancelled_row, cancel_found,
  renew_lease, renewed, reap_expired_leases, reaped, reap_write, is_abandoned,
}
use yt_scrapper.Worker.Outcome.{
  Fault, settle, settled, requeue, requeued, fail_or_retry, fail_found, ended, retried, gives_up,
  retry,
}
use yt_scrapper.Retrying.{backoff_for_attempt}
use yt_scrapper.Webhooks.{settle_delivery, settled_delivery}
use yt_scrapper.Base.{All-append}
use yt_scrapper.Queue.Bounds.{
  IsBounded, taken-IsBounded, cancelled_row-IsBounded, renewed-IsBounded, reaped-IsBounded,
  settled-IsBounded, requeued-IsBounded, settled_delivery-IsBounded, reap_write-IsBounded,
  retried-late, IsBounded-mono,
}
use yt_scrapper.Lifecycle.{
  Step, claims, cancels, renews, reaps, settles, fails, late_reaps, late_fails, puts_back,
  announces, submits, Reach, here, next, IsSound, Bounded, late_writes, late_by, one_at,
}

module _ (late : String → ℕ) (js : Jobs) (h : IsSound late js) where
  abbrev Later : (String → ℕ) → Type 0
  Later later = (i : String) → late i ≤ later i

  weaken : (later : String → ℕ) → Later later → IsSound later js
  weaken later l = record {
    distinct = h.distinct;
    bounded =
        All-mono js
          (λ j. IsBounded-mono (late j.identifier) (later j.identifier) j (l j.identifier))
          h.bounded;
  }

  -- A change of rows that keeps keys and bounds, by key or by test.
  modify-to :
      (later : String → ℕ) (k : String) (f : Job → Job)
      → Later later
      → KeepsKey f
      → ((j : Job)
          → same j.identifier k ≡ true
          → Bounded late j
          → IsBounded (later j.identifier) (f j))
      → IsSound later (modify k f js)
  modify-to later k f l keys keep = record {
    distinct = modify-Distinct k f js keys h.distinct;
    bounded =
        All-modify_to (Bounded late) (Bounded later) k f js
          (λ j e b. subst (λ i. IsBounded (later i) (f j)) (sym (keys j)) (keep j e b))
          (λ j. IsBounded-mono (late j.identifier) (later j.identifier) j (l j.identifier))
          h.bounded;
  }

  modify-IsSound :
      (k : String) (f : Job → Job)
      → KeepsKey f
      → ((n : ℕ) (j : Job) → IsBounded n j → IsBounded n (f j))
      → IsSound late (modify k f js)
  modify-IsSound k f keys keep =
      modify-to late k f (λ i. omega arith) keys (λ j e b. keep (late j.identifier) j b)

  -- A late write on a row.
  modify-late :
      (k : String) (f : Job → Job)
      → KeepsKey f
      → ((n : ℕ) (j : Job) → IsBounded n j → IsBounded (n + 1) (f j))
      → IsSound (λ i. late i + one_at k i) (modify k f js)
  modify-late k f keys keep =
      modify-to (λ i. late i + one_at k i) k f (λ i. omega arith) keys
        (λ j e b.
          let same_key : same k j.identifier ≡ true =
            ground (arith, eq_iff j.identifier k, eq_iff k j.identifier) in
          rw same_key (keep (late j.identifier) j b))

  modify_at-IsSound :
      (k : String) (f : Job → Job) (j : Job)
      → KeepsKey f
      → get k js ≡ some j
      → Bounded late (f j)
      → IsSound late (modify k f js)
  modify_at-IsSound k f j keys e p = record {
    distinct = modify-Distinct k f js keys h.distinct;
    bounded = All-modify_at (Bounded late) k f js j h.distinct e p h.bounded;
  }

  update_where-IsSound :
      (p : Job → Bool) (f : Job → Job)
      → KeepsKey f
      → ((n : ℕ) (j : Job) → p j ≡ true → IsBounded n j → IsBounded n (f j))
      → IsSound late (update_where p f js).1
  update_where-IsSound p f keys keep = record {
    distinct = update_where-Distinct p f js keys h.distinct;
    bounded =
        All-update_where (Bounded late) p f js
          (λ j e b.
            subst (λ i. IsBounded (late i) (f j)) (sym (keys j)) (keep (late j.identifier) j e b))
          h.bounded;
  }

  claim-IsSound :
      (worker : String) (lease : Time) (kinds : Option (List String)) (locked : String → Bool)
      (now : Time)
      → IsSound late (claim worker lease kinds locked now js).1
  unfolding claim
  claim-IsSound worker lease kinds locked now = go (candidate locked now kinds js)
    where
      go : (o : Option Job) → IsSound late (claim_candidate worker lease now o js).1
      go none = h
      go (some c) =
          let r =
            update_where-IsSound (is_untaken c.identifier) (taken worker lease now) (λ j. refl)
              (λ n j u b. taken-IsBounded n worker lease now c.identifier j u b) in
          ground (arith, r)

  cancel-IsSound : (k : String) (now : Time) → IsSound late (cancel k now js).1
  unfolding cancel
  cancel-IsSound k now = go (get k js)
    where
      go : (o : Option Job) → IsSound late (cancel_found k now o js).1
      go none = h
      go (some j) =
          let r =
            modify-IsSound k (cancelled_row now) (λ i. ground arith)
              (λ n. cancelled_row-IsBounded n now) in
          ground (arith, r)

  -- A failed attempt: the row that is queued again is one with an attempt left.
  retried-IsBounded :
      (k : String) (j : Job) (delay : Time) (fault : Fault) (now : Time)
      → get k js ≡ some j
      → gives_up fault j ≡ false
      → Bounded late (retried delay fault now j)
  unfolding gives_up
  retried-IsBounded k j delay fault now e g =
      let b = All-get (Bounded late) k js h.bounded e in ground (arith, b)

  module _ (fl : FloatOps) (k : String) (fault : Fault) (now : Time) (jitter : fl.Float) where
    retry-IsSound :
        (j : Job) (delay : Option fl.Float) (js' : Jobs)
        → get k js ≡ some j
        → gives_up fault j ≡ false
        → retry fl k delay fault now js ≡ some js'
        → IsSound late js'
    retry-IsSound j none js' e g q = cc
    retry-IsSound j (some delay) js' e g q =
        let same_table : modify k (retried (fl.microseconds delay) fault now) js ≡ js' = cc in
        rw (← same_table) (
          modify_at-IsSound k (retried (fl.microseconds delay) fault now) j (λ i. refl) e
            (retried-IsBounded k j (fl.microseconds delay) fault now e g))

    ended-IsSound :
        (state : JobState) (js' : Jobs)
        → is_terminal state ≡ true
        → some (modify k (ended state fault now) js) ≡ some js'
        → IsSound late js'
    ended-IsSound state js' t q =
        let same_table : modify k (ended state fault now) js ≡ js' = cc in
        rw (← same_table)
          (modify-IsSound k (ended state fault now) (λ i. refl) (λ n i b. ground arith))

    fail_found-IsSound :
        (o : Option Job) (js' : Jobs)
        → get k js ≡ o
        → fail_found fl k o fault now jitter js ≡ some js'
        → IsSound late js'
    unfolding fail_found
    fail_found-IsSound none js' e q = let same_table : js ≡ js' = cc in rw (← same_table) h
    fail_found-IsSound (some j) js' e q = elim (Bool-cases (is_some j.cancel_requested_at)) [
      | inl c ↦ ended-IsSound cancelled js' refl (rw c at q)
      | inr c ↦ elim (Bool-cases (gives_up fault j)) [
        | inl g ↦ ended-IsSound failed js' refl (rw (c, g) at q)
        | inr g ↦
            retry-IsSound j (backoff_for_attempt fl j.attempt_count jitter) js' e g (rw (c, g) at q)
      ]
    ]

    -- The same from values that were read earlier.
    retry-late :
        (delay : Option fl.Float) (js' : Jobs)
        → retry fl k delay fault now js ≡ some js'
        → IsSound (λ i. late i + one_at k i) js'
    retry-late none js' q = cc
    retry-late (some delay) js' q =
        let same_table : modify k (retried (fl.microseconds delay) fault now) js ≡ js' = cc in
        rw (← same_table) (
          modify-late k (retried (fl.microseconds delay) fault now) (λ i. refl)
            (λ n j. retried-late n (fl.microseconds delay) fault now j))

    fail_found-late :
        (read : Job) (js' : Jobs)
        → fail_found fl k (some read) fault now jitter js ≡ some js'
        → IsSound (λ i. late i + one_at k i) js'
    unfolding fail_found
    fail_found-late read js' q = elim (Bool-cases (is_some read.cancel_requested_at)) [
      | inl c ↦ over cancelled refl (rw c at q)
      | inr c ↦ elim (Bool-cases (gives_up fault read)) [
        | inl g ↦ over failed refl (rw (c, g) at q)
        | inr g ↦ retry-late (backoff_for_attempt fl read.attempt_count jitter) js' (rw (c, g) at q)
      ]
    ]
      where
        over :
            (state : JobState)
            → is_terminal state ≡ true
            → some (modify k (ended state fault now) js) ≡ some js'
            → IsSound (λ i. late i + one_at k i) js'
        over state t q =
            let same_table : modify k (ended state fault now) js ≡ js' = cc in
            rw (← same_table)
              (modify-late k (ended state fault now) (λ i. refl) (λ n i b. ground arith))

Step-IsSound :
    (late : String → ℕ) (js : Jobs) (h : IsSound late js) (fl : FloatOps) {js' : Jobs}
    (st : Step fl js js')
    → IsSound (λ i. late i + late_by st i) js'
Step-IsSound late js h fl (claims worker lease kinds locked now) =
    weaken late _ (claim-IsSound late js h worker lease kinds locked now) _ (λ i. omega arith)
Step-IsSound late js h fl (cancels k now) =
    weaken late _ (cancel-IsSound late js h k now) _ (λ i. omega arith)
Step-IsSound late js h fl (renews k lease now) =
    unfold renew_lease in
    weaken late _
      (modify-IsSound late js h k (renewed lease now) (λ j. ground arith)
        (λ n. renewed-IsBounded n lease now))
      _ (λ i. omega arith)
Step-IsSound late js h fl (reaps now) =
    unfold reap_expired_leases in
    weaken late _
      (update_where-IsSound late js h (is_abandoned now) (reaped now)
        (λ j. unfold reaped in ground arith) (λ n. reaped-IsBounded n now))
      _ (λ i. omega arith)
Step-IsSound late js h fl (settles k state digest byte_count fault now t) =
    unfold settle in
    weaken late _
      (modify-IsSound late js h k (settled state digest byte_count fault now) (λ j. ground arith)
        (λ n j. settled-IsBounded n state digest byte_count fault now j t))
      _ (λ i. omega arith)
Step-IsSound late js h fl (fails k fault now jitter e) =
    unfold fail_or_retry in
    weaken late _ (fail_found-IsSound late js h fl k fault now jitter (get k js) _ refl e) _
      (λ i. omega arith)
Step-IsSound late js h fl (late_reaps k read now) =
    modify-late late js h k (reap_write now read) (λ j. unfold reap_write in ground arith)
      (λ n. reap_write-IsBounded n now read)
Step-IsSound late js h fl (late_fails k read fault now jitter e) =
    fail_found-late late js h fl k fault now jitter read _ e
Step-IsSound late js h fl (puts_back k) =
    unfold requeue in
    weaken late _ (modify-IsSound late js h k requeued (λ j. refl) requeued-IsBounded) _
      (λ i. omega arith)
Step-IsSound late js h fl (announces k accepted now) =
    unfold settle_delivery in
    weaken late _
      (modify-IsSound late js h k (settled_delivery accepted now) (λ j. ground arith)
        (λ n. settled_delivery-IsBounded n accepted now))
      _ (λ i. omega arith)
Step-IsSound late js h fl (submits j fresh q z m) =
    weaken late _
      (record {
        distinct = append-Distinct j js fresh h.distinct;
        bounded = All-append (Bounded late) js (j ∷ []) h.bounded (ground arith, tt);
      })
      _ (λ i. omega arith)

-- After any steps keys are distinct, and a row has no more attempts than it may have and than late
-- writes were made on it, and one less if it waits in the queue.
pub Reach-IsSound :
    (fl : FloatOps) {js ks : Jobs}
    → IsSound (λ k. 0) js
    → (r : Reach fl js ks) → IsSound (late_writes r) ks
Reach-IsSound fl h here = h
Reach-IsSound fl h (next {ks = ks} r st) =
    Step-IsSound (late_writes r) ks (Reach-IsSound fl h r) fl st
