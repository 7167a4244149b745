-- ===== src/Tests/Spellings.antt =====
-- A shared link, and the identifier that it stands for.
use yt_scrapper.Base.{
  String, true, false, some, same, if◌then◌else◌, ◌≡◌, refl, eq_iff, inl, inr, Bool-cases, subst,
}
use yt_scrapper.Registry.{video}
use yt_scrapper.Collection.State.{returned}
use yt_scrapper.Identifiers.{Url, Parsers, all_of, normalize_target}
use yt_scrapper.Identifiers.Again.{is_plain, ParsersLaws, normalize_target-again}
use yt_scrapper.Texts.{is_filled}

abbrev link : String
link = "https://youtu.be/dQw4w9WgXcQ"

abbrev bare : String → Url
bare s = record { scheme = ""; netloc = ""; path = s; query = "" }

abbrev shared : Url
shared = record { scheme = "https"; netloc = "youtu.be"; path = "/dQw4w9WgXcQ"; query = "" }

abbrev parsers : Parsers
parsers = record {
  urlparse = λ s. if same s link then some shared else some (bare s);
  first_value = λ k q. "";
  strip = λ s. s;
  upper = λ s. s;
  is_alpha = λ s. true;
}

urlparse_plain :
    (s : String)
    → all_of is_plain s ≡ true
    → (u : Url) × (parsers.urlparse s ≡ some u) × (is_filled u.scheme ≡ false)
urlparse_plain s h = elim (Bool-cases (same s link)) [
  | inl e ↦ absurd (not_plain (subst (λ x. all_of is_plain x ≡ true) ((eq_iff s link).0 e) h))
  | inr e ↦ rw e (bare s, refl, refl)
]
  where
    not_plain : ¬ (all_of is_plain link ≡ true)
    not_plain q = cc

parsers_laws : ParsersLaws parsers
parsers_laws = record {
  urlparse_plain = urlparse_plain;
  strip_strip = λ s. refl;
  strip_alpha = λ s h. refl;
  upper_upper = λ s. refl;
}

normalize_target-link : normalize_target parsers video link ≡ returned "dQw4w9WgXcQ"
unfolding normalize_target
normalize_target-link = refl

normalize_target-again_example :
    normalize_target parsers video "dQw4w9WgXcQ" ≡ returned "dQw4w9WgXcQ"
normalize_target-again_example =
    normalize_target-again parsers parsers_laws video link normalize_target-link
