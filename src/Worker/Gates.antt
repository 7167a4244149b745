-- ===== src/Worker/Gates.antt =====
-- The gates of the worker: which kinds it may take, and the slot that a claimed job holds.
-- The worker's lock makes `_claim` one step.
pub mod Reserve
use Prim.Native.Nat
use yt_scrapper.Base.{
  ℕ, ◌+◌, ◌-◌, ◌*◌, ◌/◌, String, Bool, true, false, Option, none, some, List, [], Time, ltb, ◌&&◌,
  select, if◌then◌else◌,
}
use yt_scrapper.Models.{Job, Jobs}
use yt_scrapper.Registry.{SourceCost, cheap, standard, expensive, Source, Registry, find, kinds}
use yt_scrapper.Queue.{claim}

-- `_in_flight_by_cost`; a cost that is not in the dictionary counts 0.
pub record Slots : Type 0 where
  pub cheap_count : ℕ
  pub standard_count : ℕ
  pub expensive_count : ℕ

abbrev pub in_flight : SourceCost → Slots → ℕ
in_flight cheap s = s.cheap_count
in_flight standard s = s.standard_count
in_flight expensive s = s.expensive_count

abbrev pub set_in_flight : SourceCost → ℕ → Slots → Slots
set_in_flight cheap n s = record s { cheap_count = n }
set_in_flight standard n s = record s { standard_count = n }
set_in_flight expensive n s = record s { expensive_count = n }

-- `int(self._concurrency * share)` for the shares 1.0, 0.75 and 0.5 of `COST_SHARE`.
abbrev cost_share : SourceCost → ℕ → ℕ
cost_share cheap concurrency = concurrency
cost_share standard concurrency = concurrency * 3 / 4
cost_share expensive concurrency = concurrency / 2

-- How many jobs of a cost may run at once.
abbrev pub reserved : ℕ → SourceCost → ℕ
reserved concurrency cost = Nat.max 1 (cost_share cost concurrency)

abbrev pub has_room : ℕ → Slots → SourceCost → Bool
has_room concurrency s cost = ltb (in_flight cost s) (reserved concurrency cost)

abbrev cost_is : (SourceCost → Bool) → Option Source → Bool
cost_is allowed none = false
cost_is allowed (some s) = allowed s.cost

unfoldable pub kinds_with : (SourceCost → Bool) → Registry → List String
unfolding kinds find
kinds_with allowed r = select (λ k. cost_is allowed (find k r)) (kinds r)

-- `_admissible_kinds_unlocked`
unfoldable pub admissible_kinds : Registry → ℕ → Slots → Option (List String)
admissible_kinds r concurrency s =
    if has_room concurrency s cheap
      && has_room concurrency s standard
      && has_room concurrency s expensive
    then none
    else some (kinds_with (has_room concurrency s) r)

unfoldable pub enter : Option Source → Slots → Slots
enter none s = s
enter (some source) s = set_in_flight source.cost (in_flight source.cost s + 1) s

-- `_leave`
unfoldable pub leave : SourceCost → Slots → Slots
leave cost s = set_in_flight cost (in_flight cost s - 1) s

abbrev is_empty : Option (List String) → Bool
is_empty (some []) = true
is_empty _ = false

abbrev enter_claimed : Registry → Slots → Option Job × Jobs → Option Job × Jobs × Slots
enter_claimed r s (none, js) = (none, js, s)
enter_claimed r s (some j, js) = (some j, js, enter (find j.kind r) s)

-- `_claim`, with the limits of one worker. `_knows` and the cost are the registry's answer.
unfoldable pub claim_job :
    Registry → ℕ → String → Time → (String → Bool) → Time → Jobs → Slots → Option Job × Jobs × Slots
unfolding admissible_kinds enter
claim_job r concurrency name lease locked now js s =
    let allowed = admissible_kinds r concurrency s in
    if is_empty allowed
    then (none, js, s)
    else enter_claimed r s (claim name lease allowed locked now js)
