-- ===== src/Auth/Manager.antt =====
-- The methods of `AuthManager` in src/auth/AuthManager.cpp.
pub mod Verify
pub mod Login
pub mod Register
use pqc_api.Prelude.{
  ℕ, Bool, true, false, not, ◌||◌, Option, none, some, [], ltb, if◌then◌else◌, is_empty, length,
  Bytes, text, str_eq,
}
use pqc_api.Prelude.Int.{ℤ}
use pqc_api.Std.Outcome.{Outcome, runtime_error, or_throw}
use pqc_api.Std.Exec.{Exec, pure, lift, ◌>>=◌}
use pqc_api.Std.Strings.{c_str}
use pqc_api.Std.Decimal.{to_string}
use pqc_api.External.Openssl.{Openssl}
use pqc_api.External.Json.{Json}
use pqc_api.External.Redis.{Redis}
use pqc_api.External.Postgres.{Postgres}
use pqc_api.External.Sodium.{Sodium}
use pqc_api.Persistence.Sessions.{store_key, get_key, invalidate, default_ttl_seconds}
use pqc_api.Persistence.Users.{User, save, find_by_username}
use pqc_api.Auth.World.{World, on_redis, on_db, on_db_caught}
use pqc_api.Auth.SessionId.{generate_session_id}
use pqc_api.Auth.Token.Build.{build_token}
use pqc_api.Auth.Token.Parse.{parse_token}

pub record AuthResult : Type 0 where
  pub success : Bool
  pub user_id : Bytes
  pub token : Bytes
  pub error : Bytes

abbrev pub failure : Bytes → AuthResult
failure message = record { success = false; user_id = []; token = []; error = message }

-- `AuthManager::hashPassword`; the salt is libsodium's.
unfoldable pub hash_password : Sodium → Bytes → Bytes → Outcome Bytes
hash_password S salt password =
    or_throw (runtime_error (text "[AuthManager] Argon2id hashing failed (OOM?)"))
      (S.pwhash_str salt password)

-- `AuthManager::verifyPassword`
unfoldable pub verify_password : Sodium → Bytes → Bytes → Bool
verify_password S password hash = S.pwhash_str_verify (c_str hash) password

module _ (R : Redis) (D : Postgres) where
  abbrev pub saved : Bytes → Bool → AuthResult
  saved username true = record { success = true; user_id = username; token = []; error = [] }
  saved username false = failure (text "Failed to save user")

  -- The rest of `registerUser` once the name was found to be free.
  unfoldable pub create_user : Sodium → Bytes → Bytes → Bytes → Exec (World R D) AuthResult
  create_user S salt username password = do
    hash ← lift (hash_password S salt password)
    done ← on_db_caught R D (save D username hash)
    pure (saved username done)

  -- `AuthManager::registerUser`
  unfoldable pub register_user : Sodium → Bytes → Bytes → Bytes → Exec (World R D) AuthResult
  register_user S salt username password =
      let checked = do
        user ← on_db R D (find_by_username D username)
        elim user [
          | some u ↦ pure (failure (text "Username already exists"))
          | none ↦ create_user S salt username password
        ]
      in if is_empty username || ltb (length password) 8
        then pure (failure (text "Username empty or password too short"))
        else checked

module _ (O : Openssl) (J : Json) (R : Redis) (D : Postgres) (secret_key : Bytes) where
  -- The rest of `login` for a user whose password was right. The result of storing is not read.
  unfoldable pub open_session : ℤ → Bytes → User → Exec (World R D) AuthResult
  open_session now random user = do
    let session_id = generate_session_id random
    token ← lift (build_token O J secret_key now (to_string user.id) session_id)
    stored ← on_redis R D (store_key R default_ttl_seconds session_id (to_string user.id))
    pure (record { success = true; user_id = to_string user.id; token = token; error = [] })

  -- `AuthManager::login`
  unfoldable pub login : Sodium → ℤ → Bytes → Bytes → Bytes → Exec (World R D) AuthResult
  unfolding verify_password open_session
  login S now random username password = do
    found ← on_db R D (find_by_username D username)
    elim found [
      | none ↦ pure (failure (text "Invalid credentials"))
      | some user ↦
          if verify_password S password user.password_hash
          then open_session now random user
          else pure (failure (text "Invalid credentials"))
    ]

module _ (O : Openssl) (J : Json) (R : Redis) (secret_key : Bytes) where
  abbrev pub owner_check : Bytes → Option Bytes → Option Bytes
  owner_check user_id none = none
  owner_check user_id (some owner) = if str_eq owner user_id then some user_id else none

  -- `AuthManager::verifyToken`
  unfoldable pub verify_token : ℤ → Bytes → R.State → Option Bytes × R.State
  verify_token now token s = elim (parse_token O J secret_key now token) [
    | none ↦ (none, s)
    | some (user_id, session_id) ↦
        let (owner, s') = get_key R session_id s in (owner_check user_id owner, s')
  ]

  -- `AuthManager::logout`
  unfoldable pub logout : ℤ → Bytes → R.State → Bool × R.State
  logout now token s = elim (parse_token O J secret_key now token) [
    | none ↦ (false, s)
    | some (user_id, session_id) ↦ let (deleted, s') = invalidate R session_id s in (true, s')
  ]

-- `AuthManager::revokeToken`
unfoldable pub revoke_token : (R : Redis) → Bytes → R.State → Bool × R.State
revoke_token R session_id s = invalidate R session_id s
