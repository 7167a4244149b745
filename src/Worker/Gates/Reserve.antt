-- ===== src/Worker/Gates/Reserve.antt =====
-- The reservation: no cost ever holds more slots than its share of the workers.
use yt_scrapper.Base.{
  suc, ◌⊎◌, ◌∙◌, ℕ, ◌+◌, ◌≤◌, ◌<◌, String, Bool, true, Option, none, some, List, [], ◌∷◌, Time, ltb,
  contains, ◌&&◌, select, arith, eq_iff, ◌≡◌, refl, inl, inr, Bool-cases, Option-cases,
}
use yt_scrapper.Models.{Job, Jobs}
use yt_scrapper.Models.Rows.{Distinct}
use yt_scrapper.Registry.{SourceCost, cheap, standard, expensive, Source, Registry, find, kinds}
use yt_scrapper.Queue.{claim}
use yt_scrapper.Queue.Order.{IsClaimable}
use yt_scrapper.Queue.Claim.{claim-some}
use yt_scrapper.Worker.Gates.{
  Slots, in_flight, set_in_flight, reserved, has_room, kinds_with, admissible_kinds, enter, leave,
  claim_job, cost_is, enter_claimed, is_empty,
}

abbrev pub InReserve : ℕ → Slots → Type 0
InReserve concurrency s =
    (s.cheap_count ≤ reserved concurrency cheap)
    × (s.standard_count ≤ reserved concurrency standard)
    × (s.expensive_count ≤ reserved concurrency expensive)

contains-select :
    (p : String → Bool) (k : String) (ks : List String)
    → contains k (select p ks) ≡ (contains k ks && p k)
contains-select p k [] = refl
contains-select p k (l ∷ ks) = ground (arith, eq_iff l k, contains-select p k ks)

-- One more job of a cost with room stays within the reservation.
set_in_flight-InReserve :
    (concurrency : ℕ) (cost : SourceCost) (s : Slots)
    → in_flight cost s < reserved concurrency cost
    → InReserve concurrency s
    → InReserve concurrency (set_in_flight cost (in_flight cost s + 1) s)
set_in_flight-InReserve n cheap s room h = omega (arith, h)
set_in_flight-InReserve n standard s room h = omega (arith, h)
set_in_flight-InReserve n expensive s room h = omega (arith, h)

ltb→lt : (a b : ℕ) → ltb a b ≡ true → a < b
ltb→lt a b h = ground arith

has_room-all :
    (concurrency : ℕ) (s : Slots) (cost : SourceCost)
    → (has_room concurrency s cheap
        && has_room concurrency s standard
        && has_room concurrency s expensive)
      ≡ true
    → has_room concurrency s cost ≡ true
has_room-all n s cheap h = ground arith
has_room-all n s standard h = ground arith
has_room-all n s expensive h = ground arith

enter-InReserve :
    (concurrency : ℕ) (source : Source) (s : Slots)
    → has_room concurrency s source.cost ≡ true
    → InReserve concurrency s
    → InReserve concurrency (enter (some source) s)
unfolding enter
enter-InReserve n source s room h = set_in_flight-InReserve n source.cost s (ltb→lt _ _ room) h

leave-InReserve :
    (concurrency : ℕ) (cost : SourceCost) (s : Slots)
    → InReserve concurrency s
    → InReserve concurrency (leave cost s)
unfolding leave
leave-InReserve n cheap s h = omega (arith, h)
leave-InReserve n standard s h = omega (arith, h)
leave-InReserve n expensive s h = omega (arith, h)

kinds_with-allowed :
    (p : SourceCost → Bool) (k : String) (r : Registry) (source : Source)
    → contains k (kinds_with p r) ≡ true
    → find k r ≡ some source
    → p source.cost ≡ true
unfolding kinds_with
kinds_with-allowed p k r source c e =
    ground (arith, contains-select (λ l. cost_is p (find l r)) k (kinds r))

module _ (r : Registry) (concurrency : ℕ) where
  -- A kind that the claim may take is one whose cost has room, if the registry knows it.
  admitted-has_room :
      (s : Slots) (locked : String → Bool) (now : Time) (j : Job) (source : Source)
      → IsClaimable locked now (admissible_kinds r concurrency s) j
      → find j.kind r ≡ some source
      → has_room concurrency s source.cost ≡ true
  unfolding admissible_kinds
  admitted-has_room s locked now j source c e =
      elim (Bool-cases (
        has_room concurrency s cheap
        && has_room concurrency s standard
        && has_room concurrency s expensive)) [
          | inl all ↦ has_room-all concurrency s source.cost all
          | inr some_full ↦
              kinds_with-allowed (has_room concurrency s) j.kind r source
                (rw some_full at c.is_of_kind) e
        ]

  enter-find-InReserve :
      (s : Slots) (locked : String → Bool) (now : Time) (j : Job)
      → IsClaimable locked now (admissible_kinds r concurrency s) j
      → InReserve concurrency s
      → InReserve concurrency (enter (find j.kind r) s)
  enter-find-InReserve s locked now j c h = elim (Option-cases (find j.kind r)) [
    | inl e ↦ rw e (unfold enter in h)
    | inr (source, e) ↦
        rw e (enter-InReserve concurrency source s (admitted-has_room s locked now j source c e) h)
  ]

  -- What is in flight beside a job of a kind that the registry may know.
  abbrev pub Counts : Option Source → Slots → Slots → Type 0
  Counts none s s' = s' ≡ s
  Counts (some source) s s' =
      (in_flight source.cost s' ≡ suc (in_flight source.cost s))
      × ((c : SourceCost) → (c ≡ source.cost) ⊎ (in_flight c s' ≡ in_flight c s))

  abbrev pub IsCounted : Option Job → Slots → Slots → Type 0
  IsCounted none s s' = s' ≡ s
  IsCounted (some j) s s' = Counts (find j.kind r) s s'

  set_in_flight_self :
      (cost : SourceCost) (n : ℕ) (s : Slots) → in_flight cost (set_in_flight cost n s) ≡ n
  set_in_flight_self cheap n s = refl
  set_in_flight_self standard n s = refl
  set_in_flight_self expensive n s = refl

  set_in_flight-other :
      (cost c : SourceCost) (n : ℕ) (s : Slots)
      → (c ≡ cost) ⊎ (in_flight c (set_in_flight cost n s) ≡ in_flight c s)
  set_in_flight-other cheap cheap n s = inl refl
  set_in_flight-other cheap standard n s = inr refl
  set_in_flight-other cheap expensive n s = inr refl
  set_in_flight-other standard cheap n s = inr refl
  set_in_flight-other standard standard n s = inl refl
  set_in_flight-other standard expensive n s = inr refl
  set_in_flight-other expensive cheap n s = inr refl
  set_in_flight-other expensive standard n s = inr refl
  set_in_flight-other expensive expensive n s = inl refl

  enter-Counts : (o : Option Source) (s : Slots) → Counts o s (enter o s)
  unfolding enter
  enter-Counts none s = refl
  enter-Counts (some source) s =
      let n = in_flight source.cost s + 1 in
      (set_in_flight_self source.cost n s ∙ omega arith, λ c. set_in_flight-other source.cost c n s)

  enter_claimed-InReserve :
      (name : String) (lease : Time) (locked : String → Bool) (now : Time) (js : Jobs) (s : Slots)
      (p : Option Job × Jobs)
      → Distinct js
      → claim name lease (admissible_kinds r concurrency s) locked now js ≡ p
      → InReserve concurrency s
      → let (claimed, _, s') = enter_claimed r s p in
        InReserve concurrency s' × IsCounted claimed s s'
  enter_claimed-InReserve name lease locked now js s (none, js') d e h = (h, refl)
  enter_claimed-InReserve name lease locked now js s (some j, js') d e h =
      let (c, _, claimable, _, same_row, _) =
        claim-some name lease (admissible_kinds r concurrency s) locked now js d e in
      (
        rw same_row (enter-find-InReserve s locked now c claimable h),
        enter-Counts (find j.kind r) s,
      )

  -- A claim keeps the reservation: after it no cost has more jobs in flight than its share of the
  -- worker's concurrency, one at the least. The job that is claimed is counted: the jobs in flight of
  -- the cost of its kind are one more, if the registry knows the kind, and no other count changes.
  pub claim_job-InReserve :
      (name : String) (lease : Time) (locked : String → Bool) (now : Time) (js : Jobs) (s : Slots)
      → Distinct js
      → InReserve concurrency s
      → let (claimed, _, s') = claim_job r concurrency name lease locked now js s in
        InReserve concurrency s' × IsCounted claimed s s'
  unfolding claim_job
  claim_job-InReserve name lease locked now js s d h =
      let allowed = admissible_kinds r concurrency s in
      elim (Bool-cases (is_empty allowed)) [
        | inl e ↦ rw e (h, refl)
        | inr e ↦ rw e (
            enter_claimed-InReserve name lease locked now js s
              (claim name lease allowed locked now js) d refl h)
      ]
