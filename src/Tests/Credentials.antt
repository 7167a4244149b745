-- ===== src/Tests/Credentials.antt =====
-- API keys with an allowance of one request a minute.
use yt_scrapper.Base.{◌≤◌, String, true, false, none, some, All, List, [], ◌∷◌, arith, ◌≡◌, refl}
use yt_scrapper.Errors.{ok}
use yt_scrapper.Keys.{
  ApiKeyService, Drawn, Request, mints, revokes, verifies, secret_of, matched, next, stamps_of,
  put_stamps, mint, verify, revoke, accepted,
}
use yt_scrapper.Api.Access.{Presented, require_api_key, answers, is_limited, answers-is_limited}
use yt_scrapper.Keys.Charges.{times, times-accepted}
use yt_scrapper.Keys.Revoked.{is_among, accepted-revoke}
use yt_scrapper.Keys.Secrets.{mint-verify}

-- A hash for the tests.
abbrev hash : String → String
hash s = s

abbrev no_keys : ApiKeyService
no_keys = record { keys = []; recent = [] }

abbrev drawn : Drawn
drawn = record { identifier = "k1"; key_prefix = "0a1b"; token = "ff"; created_at = 1 }

abbrev requests : List Request
requests =
    mints "client" 1 drawn
    ∷ verifies "ytd_0a1b_ff" 2 5
    ∷ verifies "ytd_0a1b_ff" 3 6
    ∷ verifies "ytd_0a1b_" 4 7
    ∷ verifies "0a1b" 4 7
    ∷ verifies "ytd_0a1b_ff" 5 60000005
    ∷ revokes "k1" 6
    ∷ verifies "ytd_0a1b_ff" 7 120000005
    ∷ []

-- The second use comes within the minute of the first, the next two name no key, and the last
-- names a key that is revoked.
accepted-requests : accepted hash requests no_keys ≡ ("k1", 5) ∷ ("k1", 60000005) ∷ []
unfolding accepted secret_of next stamps_of put_stamps
accepted-requests = refl

mint-verify_example :
    (verify hash "ytd_0a1b_ff" 2 5 (mint hash "client" 1 drawn no_keys).1).0
    ≡ ok (record { identifier = "k1"; label = "client" })
unfolding mint secret_of stamps_of matched
mint-verify_example =
    mint-verify hash "client" 1 drawn 2 5 no_keys refl refl refl refl (omega arith)

times-accepted_example : times "k1" 3 (accepted hash requests no_keys) ≤ 1
times-accepted_example =
    times-accepted hash "k1" 1 3 0 requests no_keys
      (omega arith, (omega arith, (omega arith, (omega arith, (omega arith, (omega arith, tt))))))
      (λ h. omega arith, (tt, (tt, (tt, (tt, (tt, (tt, (tt, tt)))))))) tt

-- The table when the key is minted.
abbrev one_key : ApiKeyService
one_key = record {
  keys =
      record {
        identifier = "k1";
        label = "client";
        key_prefix = "0a1b";
        key_hash = "ytd_0a1b_ff";
        requests_per_minute = 1;
        created_at = 1;
        last_used_at = none;
        revoked_at = none;
      }
      ∷ [];
  recent = [];
}

abbrev later_requests : List Request
later_requests =
    verifies "ytd_0a1b_ff" 7 9
    ∷ mints "other" 5 (record drawn { identifier = "k2"; key_prefix = "77" })
    ∷ verifies "ytd_0a1b_ff" 8 10
    ∷ []

accepted-revoke_example :
    is_among "k1" (accepted hash later_requests (revoke "k1" 6 one_key)) ≡ false
accepted-revoke_example = accepted-revoke hash "k1" 6 later_requests one_key (tt, (refl, (tt, tt)))

-- Three requests within one minute, of a key that allows one.
abbrev presentations : List Presented
presentations =
    (some "ytd_0a1b_ff", 2, 5) ∷ (some "ytd_0a1b_ff", 3, 6) ∷ (some "ytd_0a1b_ff", 4, 7) ∷ []

answers-presentations : answers hash true presentations one_key.keys ≡ (
    ok (some (record { identifier = "k1"; label = "client" }))
    ∷ ok (some (record { identifier = "k1"; label = "client" }))
    ∷ ok (some (record { identifier = "k1"; label = "client" }))
    ∷ [])
unfolding answers require_api_key secret_of next stamps_of put_stamps
answers-presentations = refl

answers-is_limited_example :
    All (λ a. is_limited a ≡ false) (answers hash true presentations one_key.keys)
answers-is_limited_example =
    answers-is_limited hash true presentations one_key.keys (omega arith, tt)
