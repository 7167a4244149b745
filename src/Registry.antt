-- ===== src/Registry.antt =====
-- src/tubedepth/sources/registry.py: what a source declares, and the registry of them.
pub mod Laws
use yt_scrapper.Base.{
  ℕ, String, Option, none, some, List, [], ◌∷◌, ◌++◌, Time, same, is_some, if◌then◌else◌,
}
use yt_scrapper.Errors.{
  Result, ok, err, not_found, configuration, no_source_for, already_registered,
}
use yt_scrapper.Egress.{Lane}
use yt_scrapper.Texts.{insert}

pub data SourceCost : Type 0 where
  cheap standard expensive : SourceCost

-- identifiers.py
pub data TargetType : Type 0 where
  video channel playlist query region : TargetType

unfoldable pub maximum_attempts : SourceCost → ℕ
maximum_attempts cheap = 3
maximum_attempts standard = 3
maximum_attempts expensive = 2

-- What a source declares. Its `collect` and the model of its payload are not under this module;
-- a member that a source may leave out is empty here when it does.
pub record Source : Type 0 where
  pub kind : String
  pub target_type : TargetType
  pub lane : Lane
  pub cost : SourceCost
  pub schema_version : String
  pub default_freshness : Time
  pub cache_parameters : List (String × String)
  pub retracted_versions : List String
  pub parts : Option (List String)

abbrev pub attempts_for : Source → ℕ
attempts_for s = maximum_attempts s.cost

-- The dictionary `_sources`, whose keys are the kinds of its values.
abbrev pub Registry : Type 0
Registry = List Source

unfoldable pub find : String → Registry → Option Source
find k [] = none
find k (s ∷ r) = if same s.kind k then some s else find k r

unfoldable pub register : Source → Registry → Result Registry
unfolding find
register s r =
    if is_some (find s.kind r)
    then err configuration (already_registered s.kind)
    else ok (r ++ s ∷ [])

abbrev or_raise : String → Option Source → Result Source
or_raise k none = err not_found (no_source_for k)
or_raise k (some s) = ok s

unfoldable pub get : String → Registry → Result Source
unfolding find
get k r = or_raise k (find k r)

unfoldable pub kinds : Registry → List String
unfolding insert
kinds [] = []
kinds (s ∷ r) = insert s.kind (kinds r)
