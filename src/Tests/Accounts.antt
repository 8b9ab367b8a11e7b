-- ===== src/Tests/Accounts.antt =====
-- Registration and login.
use pqc_api.Prelude.{
  ℕ, ◌≡◌, refl, inr, true, none, some, [], ◌∷◌, arith, if◌then◌else◌, ltb, Bytes, text, str_eq,
  replicate,
}
use pqc_api.Prelude.Int.{ℤ, pos, ◌+ℤ◌, ltb_ℤ}
use pqc_api.Std.Outcome.{returns}
use pqc_api.Std.Strings.{c_str}
use pqc_api.Std.Decimal.{to_string}
use pqc_api.Persistence.Sessions.{default_ttl_seconds}
use pqc_api.Persistence.Users.{User}
use pqc_api.Persistence.Users.Table.{named}
use pqc_api.Auth.World.{World}
use pqc_api.Auth.Token.Build.{token_ttl_seconds}
use pqc_api.Auth.Manager.{failure, verify_password, create_user, register_user, login, verify_token}
use pqc_api.Auth.Manager.Login.{
  welcome, login_refused, verify_token-login, verify_token-login_redis_down,
}
use pqc_api.Auth.Manager.Register.{registered, register_user_refused, create_user_taken}
use pqc_api.Tests.Fakes.Crypto.{
  openssl, openssl-Base64Laws, openssl-MacLaws, sodium, sodium-PasswordLaws,
}
use pqc_api.Tests.Fakes.Text.{json, json-JsonLaws}
use pqc_api.Tests.Fakes.Stores.{redis, redis-RedisLaws, postgres, postgres-UserTable}
use pqc_api.Tests.Sessions.{server, stopped}
use pqc_api.Tests.Tokens.{secret, issue_time}

-- The hash is that of the password "hunter22".
abbrev pub alice : User
alice = record {
  id = pos 7;
  username = text "alice";
  password_hash = text "ivoufs33";
  created_at = text "2026-04-29 10:00:00";
  role = pos 0;
}

abbrev pub world : World redis postgres
world = record { redis = server; db = record { up = true; users = alice ∷ [] } }

abbrev redis_stopped : World redis postgres
redis_stopped = record world { redis = stopped }

abbrev random : Bytes
random = replicate 32 171

named-alice : named (text "alice") (alice ∷ []) ≡ some alice
unfolding str_eq text
named-alice = refl

alice_password : verify_password sodium (text "hunter22") alice.password_hash ≡ true
unfolding verify_password c_str str_eq text
alice_password = refl

login_refused_example :
    login openssl json redis postgres secret sodium issue_time random
      (text "alice")
      (text "wrong pass")
      world
    ≡ (returns (failure (text "Invalid credentials")), world)
unfolding verify_password c_str str_eq text
login_refused_example =
    login_refused openssl json redis postgres sodium secret postgres-UserTable world refl issue_time
      random (text "alice") (text "wrong pass") refl (inr (alice, named-alice, refl))

verify_token-login_example :
    (token : Bytes) × ((login openssl json redis postgres secret sodium issue_time random
        (text "alice")
        (text "hunter22")
        world).0
      ≡ returns (welcome alice token))
    × ((later : ℤ) (n : ℕ)
        → (verify_token openssl json redis secret later token (
            redis-RedisLaws.elapse n
              (login openssl json redis postgres secret sodium issue_time random
                (text "alice")
                (text "hunter22")
                world).1.redis)).0
          ≡ (if ltb_ℤ (issue_time +ℤ token_ttl_seconds) later
              then none
              else if ltb n default_ttl_seconds
              then some (to_string (pos 7))
              else none))
verify_token-login_example =
    verify_token-login openssl json redis postgres sodium secret openssl-Base64Laws openssl-MacLaws
      json-JsonLaws redis-RedisLaws postgres-UserTable world refl issue_time random (text "alice")
      (text "hunter22") (omega arith) alice refl named-alice alice_password refl

verify_token-login_redis_down_example :
    (token : Bytes) × ((login openssl json redis postgres secret sodium issue_time random
        (text "alice")
        (text "hunter22")
        redis_stopped).0
      ≡ returns (welcome alice token))
    × ((login openssl json redis postgres secret sodium issue_time random
          (text "alice")
          (text "hunter22")
          redis_stopped).1
        ≡ redis_stopped)
    × ((later : ℤ) → (verify_token openssl json redis secret later token stopped).0 ≡ none)
verify_token-login_redis_down_example =
    verify_token-login_redis_down openssl json redis postgres sodium secret openssl-Base64Laws
      openssl-MacLaws json-JsonLaws redis-RedisLaws postgres-UserTable redis_stopped refl issue_time
      random (text "alice") (text "hunter22") (omega arith) alice refl named-alice alice_password
      refl

register_user_refused_example :
    (message : Bytes) × (register_user redis postgres sodium []
        (text "alice")
        (text "password")
        world
      ≡ (returns (failure message), world))
register_user_refused_example =
    register_user_refused redis postgres sodium sodium-PasswordLaws postgres-UserTable world refl []
      (text "alice") (text "password") refl (inr (inr (alice, named-alice)))

create_user_taken_example :
    ((create_user redis postgres sodium [] (text "alice") (text "password") world).0
      ≡ returns (registered (text "alice")))
    × ((create_user redis postgres sodium [] (text "alice") (text "password") world).1.db.users
        ≡ alice ∷ [])
unfolding text
create_user_taken_example =
    create_user_taken redis postgres sodium sodium-PasswordLaws postgres-UserTable world refl []
      (text "alice") (text "password") refl alice _ named-alice refl
