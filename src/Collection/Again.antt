-- ===== src/Collection/Again.antt =====
-- What is collected is what the next collection of the same thing gives, without another request.
use yt_scrapper.Base.{
  ℕ, Bool, suc, ◌+◌, ◌<◌, String, true, false, none, some, [], ◌∷◌, ◌++◌, All, ◌≡◌, refl, length,
}
use Prim.Native.String.{len}
use yt_scrapper.Json.{Json}
use yt_scrapper.Errors.{ok}
use yt_scrapper.Registry.{Source, Registry, get}
use yt_scrapper.Artifacts.{Observation, observed_row, add_observation}
use yt_scrapper.Artifacts.Fresh.{add_observation-fresh}
use yt_scrapper.Payloads.{
  PayloadFile, write_file, put, IsAddressed, has_path-written, read-write_file,
}
use yt_scrapper.Collection.State.{Outside, Library, Collected, returned}
use yt_scrapper.Collection.Service.{
  question, cached_answer, recorded, stored, asked, collect_new, collect,
}

module _ (o : Outside) (registry : Registry) (source : Source) (t : String) (v : Json) where
  abbrev pub observation : Observation
  observation = record {
    kind = source.kind;
    target = t;
    fingerprint = question o registry true source t;
    digest = o.digest_of (o.dump v);
    byte_count = len (o.dump v);
    freshness = source.default_freshness;
    schema_version = source.schema_version;
  }

  abbrev pub file : PayloadFile
  file = record { kind = source.kind; digest = o.digest_of (o.dump v); payload = o.dump v }

  -- A lookup makes no request.
  pub asked-requests :
      (refresh : Bool) (w : Library)
      → (asked o registry true refresh source t w).1.requests ≡ w.requests
  unfolding cached_answer
  asked-requests true w = refl
  asked-requests false w = refl

  -- What a collection answers, from the network or not.
  abbrev pub answer : Bool → Collected
  answer from_cache = record {
    kind = source.kind;
    target = t;
    payload = record {
      kind = source.kind;
      digest = o.digest_of (o.dump v);
      byte_count = len (o.dump v);
    };
    result = some v;
    from_cache = from_cache;
  }

  -- The library after it was collected.
  abbrev pub after : Library → Library
  after w = record {
    rows =
        w.rows ++ observed_row (o.new_identifier w.readings) (o.clock w.readings) observation ∷ [];
    files = write_file file w.files;
    readings = suc w.readings;
    requests = w.requests ++ (source.kind, t) ∷ [];
  }

  -- A collection that asks the network: a refresh was asked for, or the lookup found no answer.
  module _ (kind target : String) (depth : ℕ) (refresh : Bool) (w0 w : Library)
      (missed : asked o registry true refresh source t w0 ≡ (returned none, w))
      (registered : get kind registry ≡ ok source) (is_plain : source.parts ≡ none)
      (normal : o.normalize source.target_type target ≡ ok t)
      (extracted : o.fetch (length w.requests) source.kind t ≡ returned v) where
    pub collect-new :
        collect o registry true (suc depth) refresh kind target w0
        ≡ (returned (answer false), after w)
    unfolding collect collect_new stored recorded put add_observation
    collect-new = rw (registered, normal, missed, is_plain, extracted)

    module _ (parses : o.parse source.kind (o.dump v) ≡ some v)
        (no_collision : (b : String) → o.digest_of b ≡ o.digest_of (o.dump v) → b ≡ o.dump v)
        (addressed : IsAddressed o.digest_of w.files)
        (older : All (λ a. a.fetched_at < o.clock w.readings) w.rows)
        (good : o.clock (suc w.readings) < o.clock w.readings + source.default_freshness) where
      pub cached_answer-after :
          cached_answer o registry true source t (after w)
          ≡ (returned (some (answer true)), record (after w) { readings = suc (suc w.readings) })
      unfolding cached_answer add_observation
      cached_answer-after = rw (
        (add_observation-fresh (o.new_identifier w.readings) (o.clock w.readings) observation
            (o.clock (suc w.readings)) w.rows older good).0,
        has_path-written file w.files,
        read-write_file o.digest_of (o.dump v) no_collision source.kind w.files addressed,
        parses,
      )
