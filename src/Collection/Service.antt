-- ===== src/Collection/Service.antt =====
-- `CollectionService`, `fingerprint`, and the bundle of parts.
use yt_scrapper.Base.{
  ℕ, zero, suc, String, Bool, true, false, Option, none, some, List, [], ◌∷◌, ◌++◌, map, length,
  same, if◌then◌else◌,
}
use yt_scrapper.Json.{Json, null, text, array, object, Items, nil, item, Members, end, member}
use yt_scrapper.Errors.{not_found, nothing_collected, name_of}
use yt_scrapper.Registry.{Source, Registry, get}
use yt_scrapper.Artifacts.{Artifact, add_observation, fresh}
use yt_scrapper.Payloads.{PayloadFile, StoredPayload, has_path, read, put}
use yt_scrapper.Collection.State.{
  Attempt, Collected, Degradation, Do, Gathered, Outside, crashed, lift, pure, raised, returned,
  ◌>>=◌,
}
use yt_scrapper.Texts.{is_before}

-- `collected[part] = value`
unfoldable pub put_member : String → Json → Members → Members
put_member k v end = member k v end
put_member k v (member n u rest) =
    if same n k then member n v rest else member n u (put_member k v rest)

-- `result.result.model_dump() if result.result else None`
abbrev pub dumped : Option Json → Json
dumped none = null
dumped (some v) = v

abbrev pub is_empty : Members → Bool
is_empty end = true
is_empty (member _ _ _) = false

abbrev insert_parameter : String × String → List (String × String) → List (String × String)
insert_parameter p [] = p ∷ []
insert_parameter p (q ∷ qs) = if is_before p.0 q.0 then p ∷ q ∷ qs else q ∷ insert_parameter p qs

-- `sort_keys`, by insertion.
abbrev sorted : List (String × String) → List (String × String)
sorted [] = []
sorted (p ∷ ps) = insert_parameter p (sorted ps)

-- What is asked of the network, and what the clock and the drawing of identifiers are asked.
module _ (o : Outside) (registry : Registry) (has_database : Bool) where
  abbrev pub fetched : String → String → Do Json
  fetched kind target w = (
    o.fetch (length w.requests) kind target,
    record w { requests = w.requests ++ (kind, target) ∷ [] },
  )

  -- `_question`
  unfoldable pub question : Source → String → String
  question source target = o.hash (record {
    kind = source.kind;
    target = target;
    schema_version = source.schema_version;
    parameters = sorted source.cache_parameters;
  })

  abbrev hit : Source → String → Artifact → Json → Collected
  hit source target a v = record {
    kind = source.kind;
    target = target;
    payload = record { kind = source.kind; digest = a.digest; byte_count = a.byte_count };
    result = some v;
    from_cache = true;
  }

  -- A payload that its model refuses is a miss.
  abbrev fitting : Source → String → Artifact → Option Json → Option Collected
  fitting source target a none = none
  fitting source target a (some v) = some (hit source target a v)

  abbrev parsed : Source → String → Artifact → Option String → Attempt (Option Collected)
  parsed source target a none = crashed
  parsed source target a (some payload) =
      returned (fitting source target a (o.parse source.kind payload))

  abbrev held : Source → String → List PayloadFile → Option Artifact → Attempt (Option Collected)
  held source target files none = returned none
  held source target files (some a) =
      if has_path source.kind a.digest files
      then parsed source target a (read a.digest files)
      else returned none

  -- `_cached`
  unfoldable pub cached_answer : Source → String → Do (Option Collected)
  unfolding question
  cached_answer source target w =
      if has_database
      then (
        held source target w.files (fresh (question source target) (o.clock w.readings) w.rows),
        record w { readings = suc w.readings },
      )
      else (returned none, w)

  -- `cached`, which takes the target as it is.
  unfoldable pub cached : String → String → Do (Option Collected)
  unfolding cached_answer
  cached kind target = do source ← lift (get kind registry); cached_answer source target

  -- `_record`, whose INSERT and commit go through.
  unfoldable pub recorded : Source → String → StoredPayload → Do (Unit {0})
  unfolding question
  recorded source target stored w =
      if has_database
      then (
        returned tt,
        record w {
          rows =
              (add_observation (o.new_identifier w.readings) (o.clock w.readings)
                (record {
                  kind = source.kind;
                  target = target;
                  fingerprint = question source target;
                  digest = stored.digest;
                  byte_count = stored.byte_count;
                  freshness = source.default_freshness;
                  schema_version = source.schema_version;
                })
                w.rows).1;
          readings = suc w.readings;
        },
      )
      else (returned tt, w)

  unfoldable pub stored : Source → Json → Do StoredPayload
  stored source v w =
      let p = put o.digest_of source.kind (o.dump v) w.files in
      (returned p.0, record w { files = p.1 })

  abbrev degradation_items : List Degradation → Items
  degradation_items [] = nil
  degradation_items (d ∷ ds) =
      item
        (object (
          member "source" (text d.source)
            (member "code" (text (name_of d.code)) (member "detail" (text (o.str d.detail)) end))))
        (degradation_items ds)

  -- The end of `_assemble`.
  abbrev pub bundle : String → Gathered → Attempt Json
  bundle target g =
      if is_empty g.parts
      then raised not_found
          (nothing_collected target (map (λ d. (d.source, d.code)) g.degradations))
      else returned (
          object (
            member "video_id" (text target) (
              member "parts" (object g.parts)
                (member "degradations" (array (degradation_items g.degradations)) end))))

  -- What a part that was tried adds to a bundle; an exception that is not a domain error leaves.
  abbrev pub with_part : String → Gathered → Attempt Collected → Attempt Gathered
  with_part part g (returned c) =
      returned (record g { parts = put_member part (dumped c.result) g.parts })
  with_part part g (raised c m) = returned (record g {
    degradations = g.degradations ++ record { source = part; code = c; detail = m } ∷ [];
  })
  with_part part g crashed = crashed

  abbrev pub try_part : (String → Do Collected) → String → Gathered → Do Gathered
  try_part collect_part part g w = let a = collect_part part w in (with_part part g a.0, a.1)

  -- The loop of `_assemble`.
  unfoldable pub gather : (String → Do Collected) → List String → Gathered → Do Gathered
  gather collect_part [] g = pure g
  gather collect_part (part ∷ parts) g = try_part collect_part part g >>= gather collect_part parts

  unfoldable pub assemble : (String → String → Do Collected) → String → List String → Do Json
  unfolding gather
  assemble collect_part target parts = do
    g ← gather (λ part. collect_part part target) parts (record { parts = end; degradations = [] })
    λ w. (bundle target g, w)

  -- The answer of a source: a bundle of its parts, or what the extraction gives.
  abbrev pub result_of : (String → String → Do Collected) → Source → String → Do Json
  result_of collect_part source target = elim source.parts [
    | none ↦ fetched source.kind target
    | some parts ↦ assemble collect_part target parts
  ]

  unfoldable pub collect_new : (String → String → Do Collected) → Source → String → Do Collected
  unfolding assemble stored recorded
  collect_new collect_part source target = do
    v ← result_of collect_part source target
    p ← stored source v
    _ ← recorded source target p
    pure (record {
      kind = source.kind;
      target = target;
      payload = p;
      result = some v;
      from_cache = false;
    })

  abbrev pub answered : Option Collected → Do Collected → Do Collected
  answered none collecting = collecting
  answered (some c) collecting = pure c

  abbrev pub asked : Bool → Source → String → Do (Option Collected)
  asked refresh source target = if refresh then pure none else cached_answer source target

  -- `collect`. A part is collected by the same function, so that a source whose parts lead back to
  -- itself exhausts the stack: at depth 0 a call is the `RecursionError`.
  unfoldable pub collect : ℕ → Bool → String → String → Do Collected
  unfolding cached_answer collect_new
  collect zero refresh kind target = λ w. (crashed, w)
  collect (suc depth) refresh kind target = do
    source ← lift (get kind registry)
    normalized ← lift (o.normalize source.target_type target)
    found ← asked refresh source normalized
    answered found (collect_new (collect depth false) source normalized)
