-- ===== src/Tests/Collecting.antt =====
-- Collections against a small network: one video, and a bundle of a part that arrives, a part that
-- is refused and a part of no known kind.
use yt_scrapper.Base.{
  All, ◌+◌, ◌*◌, ◌≡◌, refl, String, true, false, none, some, List, [], ◌∷◌, map, eq_iff, arith,
  same, if◌then◌else◌,
}
use yt_scrapper.Json.{Json, text}
use yt_scrapper.Errors.{ok, err, validation, upstream, text as says}
use yt_scrapper.Registry.{Source, Registry, find, get}
use yt_scrapper.Artifacts.{Artifact, fresh, answers, add_observation}
use yt_scrapper.Payloads.{write_file, has_path}
use yt_scrapper.Collection.State.{Question}
use yt_scrapper.Collection.State.{Outside, Library, returned, raised}
use yt_scrapper.Collection.Service.{collect, put_member, question}
use yt_scrapper.Versions.{sum_counts, backfill}
use yt_scrapper.Versions.Backfill.{IsRestamped, restamped, backfill_lem}
use yt_scrapper.Tests.Samples.{metadata}

abbrev transcript : Source
transcript = record metadata { kind = "video.transcript" }

abbrev everything : Source
everything = record metadata {
  kind = "video.bundle";
  parts = some ("video.metadata" ∷ "video.transcript" ∷ "video.gone" ∷ []);
}

abbrev pub registry : Registry
registry = metadata ∷ transcript ∷ everything ∷ []

-- The payload of a text is the text, and the digest of a payload is the payload.
abbrev dump : Json → String
dump (text s) = s
dump _ = "bundle"

abbrev pub outside : Outside
outside = record {
  normalize = λ t s. if same s "" then err validation (says "empty") else ok s;
  hash = λ q. q.kind;
  digest_of = λ s. s;
  dump = dump;
  parse = λ k s. some (text s);
  fetch = λ n k t.
      if same k "video.metadata" then returned (text "views") else raised upstream (says "refused");
  clock = λ n. 10 * n;
  new_identifier = λ n. "a";
  str = λ m. "message";
}

abbrev pub empty : Library
empty = record { rows = []; files = []; readings = 0; requests = [] }

-- The bundle makes three requests less one: its last part names no source.
requests-bundle :
    (collect outside registry true 2 false "video.bundle" "v" empty).1.requests
    ≡ ("video.metadata", "v") ∷ ("video.transcript", "v") ∷ []
unfolding collect get find fresh answers question write_file put_member has_path add_observation
requests-bundle = refl

-- Three rows that name no version: one of the current version, one that no version fits, and one
-- of a kind that is gone.
abbrev old_row : Artifact
old_row = record {
  identifier = "a";
  kind = "video.metadata";
  target = "v";
  fingerprint = "1";
  schema_version = none;
  digest = "views";
  byte_count = 5;
  fetched_at = 1;
  fresh_until = 2;
}

abbrev old_rows : List Artifact
old_rows =
    old_row
    ∷ record old_row { identifier = "b"; fingerprint = "7" }
    ∷ record old_row { identifier = "c"; kind = "video.gone" }
    ∷ []

abbrev by_version : Question → String
by_version q = q.schema_version

backfill-old_rows : (backfill by_version registry false old_rows).0 ≡ record {
  attributed = 1;
  unattributed = ("video.metadata", 1) ∷ ("video.gone", 1) ∷ [];
  scanned = 3;
}
unfolding backfill get find
backfill-old_rows = refl

backfill_lem_example :
    let (outcome, rows) = backfill by_version registry false old_rows in
    (rows ≡ map (restamped by_version registry) old_rows)
    × All (λ a. IsRestamped by_version registry a (restamped by_version registry a)) old_rows
    × (outcome.attributed + sum_counts outcome.unattributed ≡ outcome.scanned)
backfill_lem_example =
    backfill_lem by_version registry old_rows
      (ground (arith, eq_iff "a" "b", eq_iff "a" "c", eq_iff "b" "c"))
