-- ===== src/Api/Http.antt =====
-- Requests and responses of src/api/Controllers.cpp, and the helpers of include/api/Controllers.h.
pub mod Guard
use pqc_api.Prelude.{
  ℕ, Bool, true, false, Option, none, some, List, [], ◌∷◌, drop, if◌then◌else◌, Bytes, text,
}
use pqc_api.Prelude.Int.{ℤ}
use pqc_api.Std.Outcome.{
  Exception, json_error, sql_error, out_of_range, invalid_argument, runtime_error, undefined,
  Outcome, returns, throws, or_throw, ◌>>=◌,
}
use pqc_api.Std.Exec.{Exec, pure, lift, ◌>>=◌ as ◌>>>=◌}
use pqc_api.Std.Strings.{starts_with}
use pqc_api.External.Openssl.{Openssl}
use pqc_api.External.Json.{Json, Doc, str, obj, field, end}
use pqc_api.External.Redis.{Redis}
use pqc_api.External.Postgres.{Postgres}
use pqc_api.Auth.World.{World, on_redis}
use pqc_api.Auth.Manager.{verify_token}

-- A part of a multipart body that is a file.
pub record File : Type 0 where
  pub item_name : Bytes
  pub file_name : Bytes
  pub content : Bytes

-- What `MultiPartParser` finds: its files in order, and the parameters by name.
pub record Form : Type 0 where
  pub files : List File
  pub parameters : Bytes → Option Bytes

pub record Request : Type 0 where
  pub body : Bytes
  -- The header `Authorization`, empty if there is none.
  pub authorization : Bytes
  -- `none` if parsing does not return 0.
  pub form : Option Form

pub data Content : Type 0 where
  application_json application_pdf : Content

pub record Response : Type 0 where
  pub status : ℕ
  pub content_type : Content
  pub content_disposition : Option Bytes
  pub body : Bytes

module _ (J : Json) where
  abbrev with_body : ℕ → Bytes → Response
  with_body code body = record {
    status = code;
    content_type = application_json;
    content_disposition = none;
    body = body;
  }

  unfoldable pub json_response : Doc → ℕ → Outcome Response
  json_response doc code =
      or_throw json_error (J.dump doc) >>= λ body. returns (with_body code body)

  unfoldable pub error_response : Bytes → ℕ → Outcome Response
  error_response message code = json_response (obj (field (text "error") (str message) end)) code

module _ {S A : Type 0} where
  abbrev pub caught_json : Outcome A × S → Exec S A → Outcome A × S
  caught_json (throws json_error, s) handler = handler s
  caught_json r handler = r

  -- `catch (const json::exception&)`
  abbrev pub catch_json : Exec S A → Exec S A → Exec S A
  catch_json m handler s = caught_json (m s) handler

-- `catch (const std::exception&)` around a call; `none` where one was caught.
abbrev pub attempt {ℓ} : {A : Type ℓ} → Outcome A → Outcome (Option A)
attempt (returns a) = returns (some a)
attempt (throws undefined) = throws undefined
attempt (throws e) = returns none

module _ (O : Openssl) (J : Json) (R : Redis) (secret_key : Bytes) where
  -- `UserController::extractAndVerifyToken` and `DocumentController::extractUserId`
  unfoldable pub extract_user_id : ℤ → Request → R.State → Option Bytes × R.State
  extract_user_id now req s =
      if starts_with (text "Bearer ") req.authorization
      then verify_token O J R secret_key now (drop 7 req.authorization) s
      else (none, s)

module _ (O : Openssl) (J : Json) (R : Redis) (D : Postgres) (secret_key : Bytes) where
  abbrev pub user_or :
      Option Bytes
      → Exec (World R D) Response
      → (Bytes → Exec (World R D) Response)
      → Exec (World R D) Response
  user_or none refuse handler = refuse
  user_or (some user_id) refuse handler = handler user_id

  -- `if (!user_id) return cb(errorResponse("Unauthorized", k401Unauthorized));`
  unfoldable pub with_user :
      ℤ → Request → (Bytes → Exec (World R D) Response) → Exec (World R D) Response
  with_user now req handler =
      on_redis R D (extract_user_id O J R secret_key now req) >>>= λ user_id.
      user_or user_id (lift (error_response J (text "Unauthorized") 401)) handler
