-- ===== src/External/Host.antt =====
-- What src/main.cpp finds when it starts: the environment, the providers that are installed, and
-- what each client's connection attempt meets.
use pqc_api.Prelude.{Bool, Option, Bytes}
use pqc_api.Prelude.Int.{ℤ}
use pqc_api.Persistence.PostgreSqlClient.{Attempt}
use pqc_api.Persistence.RedisClient.{Context, Timeval}

pub record Host : Type 0 where
  pub getenv : Bytes → Option Bytes
  -- The providers that `OSSL_PROVIDER_load` finds.
  pub provider : Bytes → Bool
  -- Whether `curl_easy_init` returns a handle.
  pub curl_init : Bool
  pub pg_connection : Bytes → Attempt
  -- `redisConnectWithTimeout`; `none` is the null pointer.
  pub redis_connect : Bytes → ℤ → Timeval → Option Context
  pub sodium_init : ℤ
