-- ===== src/Tests/Isolation.antt =====
-- A token of one user while another call is answered.
use pqc_api.Prelude.{◌≡◌, text, arith, Lacks}
use pqc_api.Auth.Manager.{verify_token}
use pqc_api.Api.Service.{remove}
use pqc_api.Api.Service.Tokens.{tokens_kept}
use pqc_api.Tests.Fakes.Crypto.{openssl, sodium}
use pqc_api.Tests.Fakes.Text.{json}
use pqc_api.Tests.Fakes.Stores.{redis, redis-RedisLaws}
use pqc_api.Tests.Fakes.Keys.{evp}
use pqc_api.Tests.Fakes.Shared.{tables}
use pqc_api.Tests.Tokens.{secret, issue_time, issued, issued_accepted}
use pqc_api.Tests.Documents.{signer}
use pqc_api.Tests.Endpoints.{x509, certificate}
use pqc_api.Tests.Service.{world, removal, after_call}

session_text : Lacks 0 (text "ab01")
unfolding text
session_text = omega arith

tokens_kept_example :
    (verify_token openssl json redis secret issue_time issued after_call.redis).0
    ≡ (verify_token openssl json redis secret issue_time issued world.redis).0
tokens_kept_example =
    tokens_kept openssl json evp x509 sodium redis tables secret signer certificate redis-RedisLaws
      (text "ab01") session_text remove removal world issue_time issued (text "7") issued_accepted
      (λ e. e)
