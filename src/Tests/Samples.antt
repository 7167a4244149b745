-- ===== src/Tests/Samples.antt =====
-- Concrete values: a table of jobs, a registry of two sources, and fixed-point numbers in place of
-- floats, counted in millionths.
use yt_scrapper.Base.{
  ℕ, ◌+◌, ◌-◌, ◌*◌, ◌/◌, ◌^◌, ◌≤◌, ◌≡◌, refl, leb, true, false, none, some, [], ◌∷◌, arith,
}
use yt_scrapper.Floats.{FloatOps, FloatLaws}
use yt_scrapper.Models.{Job, Jobs, queued, running, succeeded}
use yt_scrapper.Egress.{Controller, youtube}
use yt_scrapper.Registry.{Source, Registry, cheap, expensive, video, channel}

abbrev pub fixed : FloatOps
fixed = record {
  Float = ℕ;
  decimal = λ m k. m * 1000000 / 10 ^ k;
  of_int = λ n. some (n * 1000000);
  add = λ a b. a + b;
  sub = λ a b. a - b;
  mul = λ a b. a * b / 1000000;
  div = λ a b. a * 1000000 / b;
  leb = leb;
  microseconds = λ x. x;
  truncate = λ x. x / 1000000;
}

-- The same numbers with a range so small that no power of two is in it.
abbrev pub tiny : FloatOps
tiny = record fixed { of_int = λ n. none }

leb_refl : (a : ℕ) → leb a a ≡ true
leb_refl a = ground arith

leb_trans : (a b c : ℕ) → leb a b ≡ true → leb b c ≡ true → leb a c ≡ true
leb_trans a b c p q = ground arith

leb_total : (a b : ℕ) → leb a b ≡ false → leb b a ≡ true
leb_total a b p = ground arith

le→leb : (a b : ℕ) → a ≤ b → leb a b ≡ true
le→leb a b h = ground arith

leb→le : (a b : ℕ) → leb a b ≡ true → a ≤ b
leb→le a b h = ground arith

pub fixed_laws : FloatLaws fixed
fixed_laws = record {
  le_refl = leb_refl;
  le_trans = leb_trans;
  le_total = leb_total;
  le_add_reciprocal = λ w h. le→leb w _ (omega arith);
  half_le = λ w h. le→leb _ w (omega arith);
  shrink_le = λ x h. le→leb _ x (omega arith);
  decimal_mono = λ a b h. le→leb _ _ (omega arith);
  truncate_mono = λ a b h. omega (arith, leb→le a b h);
  of_int_power = λ k h. (2 ^ k * 1000000, refl);
}

abbrev pub job : Job
job = record {
  identifier = "a";
  kind = "video.metadata";
  target = "dQw4w9WgXcQ";
  follow_up_kind = none;
  refresh = false;
  api_key_id = none;
  state = queued;
  attempt_count = 0;
  max_attempts = 3;
  scheduled_at = 10;
  created_at = 5;
  claimed_by = none;
  lease_expires_at = none;
  finished_at = none;
  cancel_requested_at = none;
  webhook_url = none;
  webhook_attempts = 0;
  webhook_delivered_at = none;
  payload_digest = none;
  payload_bytes = none;
  error_code = none;
  error_message = none;
}

-- A listing under way, with one attempt counted and a lease until 30.
abbrev pub listing : Job
listing = record job {
  identifier = "b";
  kind = "channel.videos";
  state = running;
  attempt_count = 1;
  scheduled_at = 7;
  claimed_by = some "w";
  lease_expires_at = some 30;
}

abbrev pub finished_job : Job
finished_job = record job { identifier = "c"; state = succeeded; webhook_url = some "http://x" }

abbrev pub table : Jobs
table = job ∷ listing ∷ finished_job ∷ []

abbrev pub metadata : Source
metadata = record {
  kind = "video.metadata";
  target_type = video;
  lane = youtube;
  cost = cheap;
  schema_version = "1";
  default_freshness = 100;
  cache_parameters = [];
  retracted_versions = [];
  parts = none;
}

abbrev pub channel_videos : Source
channel_videos = record metadata {
  kind = "channel.videos";
  target_type = channel;
  cost = expensive;
}

abbrev pub registry : Registry
registry = metadata ∷ channel_videos ∷ []

abbrev pub controller : Controller fixed
controller = record { minimum_interval_seconds = 0; window_ceiling = 6000000; states = [] }
