-- ===== src/Persistence/Sessions.antt =====
-- src/persistence/SessionRepository.cpp
pub mod Laws
pub mod Others
use pqc_api.Prelude.{ℕ, Bool, Option, ◌++◌, Bytes, text}
use pqc_api.External.Redis.{Redis}
use pqc_api.Persistence.RedisClient.{set_value, get_value, delete_key, expire_key}

-- The constructor's default for `ttl_seconds`, which main.cpp uses.
abbrev pub default_ttl_seconds : ℕ
default_ttl_seconds = 3600

unfoldable pub make_key : Bytes → Bytes
make_key session_id = text "session:" ++ session_id

module _ (R : Redis) (ttl_seconds : ℕ) where
  unfoldable pub store_key : Bytes → Bytes → R.State → Bool × R.State
  store_key session_id key_data s = set_value R (make_key session_id) key_data ttl_seconds s

  unfoldable pub refresh : Bytes → R.State → Bool × R.State
  refresh session_id s = expire_key R (make_key session_id) ttl_seconds s

module _ (R : Redis) where
  unfoldable pub get_key : Bytes → R.State → Option Bytes × R.State
  get_key session_id s = get_value R (make_key session_id) s

  unfoldable pub invalidate : Bytes → R.State → Bool × R.State
  invalidate session_id s = delete_key R (make_key session_id) s
