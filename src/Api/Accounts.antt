-- ===== src/Api/Accounts.antt =====
-- `AuthController`, `UserController` and `HealthController` of src/api/Controllers.cpp.
pub mod Answers
use pqc_api.Prelude.{ℕ, Bool, Option, none, some, [], if◌then◌else◌, drop, Bytes, text}
use pqc_api.Prelude.Int.{ℤ}
use pqc_api.Std.Outcome.{Outcome, json_error, or_throw}
use pqc_api.Std.Exec.{Exec, lift, ◌>>=◌}
use pqc_api.Std.Strings.{starts_with}
use pqc_api.Std.Decimal.{stoi}
use pqc_api.External.Openssl.{Openssl}
use pqc_api.External.Json.{Json, Doc, str, num, obj, Fields, end, field}
use pqc_api.External.Redis.{Redis}
use pqc_api.External.Postgres.{Postgres}
use pqc_api.External.Sodium.{Sodium}
use pqc_api.Persistence.Users.{User, find_by_id}
use pqc_api.Auth.World.{World, on_redis, on_db}
use pqc_api.Auth.Manager as Auth
use pqc_api.Auth.Manager.{AuthResult}
use pqc_api.Api.Http.{Request, Response, json_response, error_response, catch_json, with_user}

abbrev pub registered_doc : Bytes → Doc
registered_doc username = obj (
    field (text "message") (str (text "User registered"))
      (field (text "username") (str username) end))

abbrev pub session_doc : AuthResult → Doc
session_doc result = obj (
    field (text "token") (str result.token)
      (field (text "user_id") (str result.user_id) (field (text "type") (str (text "Bearer")) end)))

abbrev pub profile_doc : User → Doc
profile_doc user = obj (
    field (text "id") (num user.id) (
      field (text "username") (str user.username) (
        field (text "created_at") (str user.created_at) (field (text "role") (num user.role) end))))

abbrev pub health_doc : Doc
health_doc = obj (
    field (text "status") (str (text "ok")) (
      field (text "tls") (str (text "1.3")) (
        field (text "key_exchange") (str (text "X25519 + ML-KEM-768 (hybrid)")) (
          field (text "tls_auth") (str (text "ECDSA P-256 (certificate)")) (
            field (text "token_signing") (str (text "HS256")) (
              field (text "doc_signing") (str (text "ML-DSA-65 (Dilithium3)"))
                (field (text "encryption") (str (text "AES-256-GCM")) end)))))))

module _ (O : Openssl) (J : Json) (R : Redis) (D : Postgres) (secret_key : Bytes) where
  abbrev pub respond : Doc → ℕ → Exec (World R D) Response
  respond doc code = lift (json_response J doc code)

  abbrev pub fail : Bytes → ℕ → Exec (World R D) Response
  fail message code = lift (error_response J message code)

  -- The two strings that a body carries; a field that is missing reads as empty.
  unfoldable pub read_credentials : Bytes → Exec (World R D) (Bytes × Bytes)
  read_credentials body = do
    value ← lift (or_throw json_error (J.parse body))
    username ← lift (or_throw json_error (J.value value (text "username") []))
    password ← lift (or_throw json_error (J.value value (text "password") []))
    lift (Outcome.returns (username, password))

  abbrev pub registration_answer : Bytes → AuthResult → Exec (World R D) Response
  registration_answer username result =
      if result.success then respond (registered_doc username) 201 else fail result.error 400

  abbrev pub session_answer : AuthResult → Exec (World R D) Response
  session_answer result =
      if result.success then respond (session_doc result) 200 else fail result.error 401

  -- `AuthController::registerUser`
  unfoldable pub register_user : Sodium → Bytes → Request → Exec (World R D) Response
  register_user S salt req =
      catch_json
        (read_credentials req.body >>= λ (username, password).
          Auth.register_user R D S salt username password >>= registration_answer username)
        (fail (text "Invalid JSON body") 400)

  -- `AuthController::login`
  unfoldable pub login : Sodium → ℤ → Bytes → Request → Exec (World R D) Response
  login S now random req =
      catch_json
        (read_credentials req.body >>= λ (username, password).
          Auth.login O J R D secret_key S now random username password >>= session_answer)
        (fail (text "Invalid JSON body") 400)

  abbrev pub profile_answer : Option User → Exec (World R D) Response
  profile_answer none = fail (text "User not found") 404
  profile_answer (some user) = respond (profile_doc user) 200

  unfoldable pub profile_for : Bytes → Exec (World R D) Response
  profile_for user_id = do
    id ← lift (stoi user_id)
    user ← on_db R D (find_by_id D id)
    profile_answer user

  -- `UserController::getProfile`
  unfoldable pub get_profile : ℤ → Request → Exec (World R D) Response
  get_profile now req = with_user O J R D secret_key now req profile_for

  abbrev pub logout_answer : Bool → Exec (World R D) Response
  logout_answer done =
      if done
      then respond (obj (field (text "message") (str (text "Logged out")) end)) 200
      else fail (text "Invalid or expired token") 401

  -- `UserController::logout`
  unfoldable pub logout : ℤ → Request → Exec (World R D) Response
  logout now req =
      let bearer =
        on_redis R D (Auth.logout O J R secret_key now (drop 7 req.authorization))
        >>= logout_answer in
      if starts_with (text "Bearer ") req.authorization
      then bearer
      else fail (text "Unauthorized") 401

  -- `HealthController::check`
  unfoldable pub check : Request → Exec (World R D) Response
  check req = respond health_doc 200
