-- ===== src/Tests/Sessions.antt =====
-- Sessions in a Redis server, and tokens checked against them.
use pqc_api.Prelude.{◌≡◌, refl, ap, Bool, ◌↔◌, true, false, none, some, if◌then◌else◌, text, str_eq}
use pqc_api.Prelude.Int.{pos}
use pqc_api.Auth.Manager.{verify_token, logout}
use pqc_api.Auth.Manager.Verify.{IsAccepted, verify_token_iff, logout_parsed, verify_token-logout}
use pqc_api.Tests.Fakes.Crypto.{openssl, openssl-MacLaws}
use pqc_api.Tests.Fakes.Text.{json}
use pqc_api.Tests.Fakes.Stores.{Server, redis, redis-RedisLaws}
use pqc_api.Tests.Tokens.{secret, issue_time, issued, issued_accepted}

-- The session `ab01` belongs to the user 7, for twenty seconds more.
abbrev pub server : Server
server = record {
  up = true;
  entries = λ k. if str_eq k (text "session:ab01") then some (text "7", 20) else none;
}

abbrev pub stopped : Server
stopped = record server { up = false }

verify_token_iff_example :
    ((verify_token openssl json redis secret issue_time issued server).0 ≡ some (text "7"))
    ↔ IsAccepted openssl json redis secret issue_time issued (text "7") server
verify_token_iff_example =
    verify_token_iff openssl json redis secret openssl-MacLaws issue_time issued (text "7") server

verify_token-logout_example :
    (verify_token openssl json redis secret
      (pos 1700000001)
      issued
      (logout openssl json redis secret issue_time issued server).1).0
    ≡ none
verify_token-logout_example =
    verify_token-logout openssl json redis secret redis-RedisLaws server refl issue_time
      (pos 1700000001) issued
      (ap (λ (r : Bool × Server). r.0)
        (logout_parsed openssl json redis secret issue_time issued server issued_accepted))
