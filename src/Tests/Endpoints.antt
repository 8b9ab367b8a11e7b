-- ===== src/Tests/Endpoints.antt =====
-- The account and admin endpoints.
use pqc_api.Prelude.{◌∷◌, ◌≡◌, ◌↔◌, refl, ap, Bool, true, false, none, some, [], drop, text}
use pqc_api.Prelude.Int.{ℤ, pos, ltb_ℤ}
use pqc_api.Std.Outcome.{returns}
use pqc_api.Std.Decimal.{to_string}
use pqc_api.Std.Strings.{starts_with, starts_with-append}
use pqc_api.External.Json.{obj, field, str, end}
use pqc_api.External.X509.{X509}
use pqc_api.Auth.World.{World}
use pqc_api.Auth.Manager as Auth
use pqc_api.Auth.Manager.Verify.{logout_parsed}
use pqc_api.Pki.Certificate.{Certificate}
use pqc_api.Api.Http.{json_response, error_response}
use pqc_api.Api.Accounts.{logout, get_profile}
use pqc_api.Api.Accounts.Answers.{get_profile-logout}
use pqc_api.Api.Admin.{admin, require_admin}
use pqc_api.Api.Admin.Access.{IsAdmin, require_admin_iff}
use pqc_api.Tests.Fakes.Crypto.{openssl}
use pqc_api.Tests.Fakes.Text.{json}
use pqc_api.Tests.Fakes.Stores.{Server, redis, redis-RedisLaws, postgres, postgres-UserTable}
use pqc_api.Tests.Tokens.{secret, issue_time, issued, issued_accepted}
use pqc_api.Tests.Sessions.{server}
use pqc_api.Tests.Accounts.{alice, world}
use pqc_api.Tests.Documents.{request}

request_bearer : starts_with (text "Bearer ") request.authorization ≡ true
request_bearer = starts_with-append (text "Bearer ") issued

request_logged_out :
    (Auth.logout openssl json redis secret issue_time (drop 7 request.authorization) server).0
    ≡ true
unfolding text
request_logged_out =
    ap (λ (r : Bool × Server). r.0)
      (logout_parsed openssl json redis secret issue_time issued server issued_accepted)

get_profile-logout_example :
    ((logout openssl json redis postgres secret issue_time request world).0
      ≡ json_response json (obj (field (text "message") (str (text "Logged out")) end)) 200)
    × (get_profile openssl json redis postgres secret
          (pos 1700000009)
          request
          (logout openssl json redis postgres secret issue_time request world).1
        ≡ (
          error_response json (text "Unauthorized") 401,
          (logout openssl json redis postgres secret issue_time request world).1,
        ))
get_profile-logout_example =
    get_profile-logout openssl json redis postgres secret issue_time request world request_bearer
      request_logged_out redis-RedisLaws (pos 1700000009) refl

-- The same user, made an admin.
abbrev promoted : World redis postgres
promoted = record world { db = record world.db { users = record alice { role = pos 1 } ∷ [] } }

require_admin_iff_example :
    ((require_admin openssl json redis postgres secret issue_time request promoted).0
      ≡ returns (admin (pos 7)))
    ↔ IsAdmin openssl json redis postgres secret redis-RedisLaws postgres-UserTable issue_time
        request promoted
        (pos 7)
require_admin_iff_example =
    require_admin_iff openssl json redis postgres secret redis-RedisLaws postgres-UserTable
      issue_time request promoted refl (pos 7)

-- A certificate is the time at which it expires.
abbrev pub x509 : X509
x509 = record {
  Cert = ℤ;
  Key = ℤ;
  fopen = λ path. none;
  pem_read = λ t. none;
  not_after_passed = λ c now. ltb_ℤ c now;
  not_after_mktime = λ c. c;
  subject_oneline = λ c. [];
  serial_hex = λ c. [];
  get_pubkey = λ c. none;
  verify = λ c k. false;
  iso_8601 = to_string;
}

abbrev pub certificate : Certificate x509
certificate = some (pos 1700086400)
