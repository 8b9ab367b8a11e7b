-- ===== src/Persistence/RedisClient.antt =====
-- src/persistence/RedisClient.cpp. The mutex makes each call one step on the server's state.
pub mod Laws
use pqc_api.Prelude.{
  ℕ, ◌*◌, ◌/◌, ◌%◌, ◌++◌, Bool, true, false, Option, none, some, ltb, ◌==◌, if◌then◌else◌, Bytes,
  text,
}
use pqc_api.Std.Outcome.{Outcome, returns, throws, runtime_error}
use pqc_api.Std.Strings.{c_str}
use pqc_api.External.Redis.{
  Redis, RedisReply, ReplyType, status_reply, string_reply, setex, get, del, exists, expire,
}

-- The parts of a `redisContext` that are read, and a `timeval`.
pub record Context : Type 0 where
  pub err : ℕ
  pub errstr : Bytes

pub record Timeval : Type 0 where
  pub tv_sec : ℕ
  pub tv_usec : ℕ

-- The constructor's default for `timeout_ms`.
abbrev pub default_timeout_ms : ℕ
default_timeout_ms = 2000

-- `timeval tv{ timeout_ms / 1000, (timeout_ms % 1000) * 1000 }`, of a timeout that is not negative.
unfoldable pub timeval_of : ℕ → Timeval
timeval_of timeout_ms = record { tv_sec = timeout_ms / 1000; tv_usec = timeout_ms % 1000 * 1000 }

-- `RedisClient::RedisClient` on what `redisConnectWithTimeout` returns.
unfoldable pub connect : Option Context → Outcome Context
connect none = throws (runtime_error (text "[RedisClient] Failed to allocate context"))
connect (some ctx) =
    if ctx.err == 0
    then returns ctx
    else throws (runtime_error (text "[RedisClient] Connection failed: " ++ ctx.errstr))

-- `RedisClient::isConnected`
unfoldable pub is_connected : Option Context → Bool
is_connected none = false
is_connected (some ctx) = ctx.err == 0

abbrev is_status : Option RedisReply → Bool
is_status none = false
is_status (some reply) = elim reply.type [ status_reply ↦ true | _ ↦ false ]

abbrev string_of : RedisReply → Option Bytes
string_of reply = elim reply.type [ string_reply ↦ some reply.str | _ ↦ none ]

abbrev reply_string : Option RedisReply → Option Bytes
reply_string none = none
reply_string (some reply) = string_of reply

abbrev is_positive : Option RedisReply → Bool
is_positive none = false
is_positive (some reply) = ltb 0 reply.integer

abbrev is_one : Option RedisReply → Bool
is_one none = false
is_one (some reply) = reply.integer == 1

module _ (R : Redis) where
  unfoldable pub set_value : Bytes → Bytes → ℕ → R.State → Bool × R.State
  set_value key value ttl_seconds s =
      let (reply, s') = R.command (setex (c_str key) ttl_seconds (c_str value)) s in
      (is_status reply, s')

  unfoldable pub get_value : Bytes → R.State → Option Bytes × R.State
  get_value key s = let (reply, s') = R.command (get (c_str key)) s in (reply_string reply, s')

  unfoldable pub delete_key : Bytes → R.State → Bool × R.State
  delete_key key s = let (reply, s') = R.command (del (c_str key)) s in (is_positive reply, s')

  unfoldable pub expire_key : Bytes → ℕ → R.State → Bool × R.State
  expire_key key ttl_seconds s =
      let (reply, s') = R.command (expire (c_str key) ttl_seconds) s in (is_one reply, s')

  unfoldable pub key_exists : Bytes → R.State → Bool × R.State
  key_exists key s = let (reply, s') = R.command (exists (c_str key)) s in (is_one reply, s')
