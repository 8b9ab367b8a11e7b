-- ===== src/Api/Accounts/Answers.antt =====
-- What the account endpoints answer.
use pqc_api.Prelude.{◌≡◌, refl, true, none, drop, Bytes, text}
use pqc_api.Prelude.Int.{ℤ}
use pqc_api.Std.Strings.{starts_with}
use pqc_api.External.Openssl.{Openssl}
use pqc_api.External.Json.{Json, obj, field, str, end}
use pqc_api.External.Redis.{Redis, RedisLaws}
use pqc_api.External.Postgres.{Postgres}
use pqc_api.External.Sodium.{Sodium}
use pqc_api.Auth.World.{World}
use pqc_api.Auth.Manager as Auth
use pqc_api.Auth.Manager.Verify.{verify_token-logout}
use pqc_api.Api.Http.{Request, json_response, error_response, extract_user_id}
use pqc_api.Api.Http.Guard.{with_user_refused}
use pqc_api.Api.Accounts.{register_user, login, logout, get_profile, read_credentials, profile_for}

module _ (O : Openssl) (J : Json) (R : Redis) (D : Postgres) (secret_key : Bytes) where
  -- A body that is no JSON: `registerUser` and `login` each answer 400 and change nothing.
  pub invalid_json :
      (S : Sodium) (now : ℤ) (random salt : Bytes) (req : Request) (w : World R D)
      → J.parse req.body ≡ none
      → (register_user O J R D secret_key S salt req w
          ≡ (error_response J (text "Invalid JSON body") 400, w))
        × (login O J R D secret_key S now random req w
            ≡ (error_response J (text "Invalid JSON body") 400, w))
  unfolding register_user login read_credentials
  invalid_json S now random salt req w bad = (rw bad refl, rw bad refl)

  module _ (now : ℤ) (req : Request) (w : World R D)
      (bearer : starts_with (text "Bearer ") req.authorization ≡ true)
      (done : (Auth.logout O J R secret_key now (drop 7 req.authorization) w.redis).0 ≡ true) where
    logout-redis :
        (logout O J R D secret_key now req w).1.redis
        ≡ (Auth.logout O J R secret_key now (drop 7 req.authorization) w.redis).1
    unfolding logout
    logout-redis = rw (bearer, done) refl

    extract_user_id-logout :
        (L : RedisLaws R) (later : ℤ)
        → L.is_up w.redis ≡ true
        → (extract_user_id O J R secret_key later req
            (logout O J R D secret_key now req w).1.redis).0
          ≡ none
    unfolding extract_user_id
    extract_user_id-logout L later up =
        rw (bearer, logout-redis)
          (verify_token-logout O J R secret_key L w.redis up now later (drop 7 req.authorization)
            done)

    -- While Redis can be reached, for a bearer token that `AuthManager::logout` takes: the endpoint
    -- `logout` answers 200, and `getProfile` with the same token in the state that it left answers
    -- 401 at any time and changes nothing.
    pub get_profile-logout :
        (L : RedisLaws R) (later : ℤ)
        → L.is_up w.redis ≡ true
        → ((logout O J R D secret_key now req w).0
            ≡ json_response J (obj (field (text "message") (str (text "Logged out")) end)) 200)
          × (get_profile O J R D secret_key later req (logout O J R D secret_key now req w).1 ≡ (
            error_response J (text "Unauthorized") 401,
            (logout O J R D secret_key now req w).1,
          ))
    unfolding logout get_profile
    get_profile-logout L later up = (
      rw (bearer, done) refl,
      with_user_refused O J R secret_key L D later req (logout O J R D secret_key now req w).1
          (profile_for O J R D secret_key) (extract_user_id-logout L later up),
    )
