-- ===== src/Auth/World.antt =====
-- What the methods of `AuthManager` act on: the session store and the database.
use pqc_api.Std.Outcome.{returns}
use pqc_api.Std.Exec.{Exec}
use pqc_api.External.Redis.{Redis}
use pqc_api.External.Postgres.{Postgres}

pub record World (R : Redis) (D : Postgres) : Type 0 where
  pub redis : R.State
  pub db : D.State

module _ (R : Redis) (D : Postgres) {A : Type 0} where
  -- A call of a Redis client never throws.
  abbrev pub on_redis : (R.State → A × R.State) → Exec (World R D) A
  on_redis m w = let (a, s) = m w.redis in (returns a, record w { redis = s })

  abbrev pub on_db : Exec D.State A → Exec (World R D) A
  on_db m w = let (r, s) = m w.db in (r, record w { db = s })

  -- A database method that catches its exceptions.
  abbrev pub on_db_caught : (D.State → A × D.State) → Exec (World R D) A
  on_db_caught m w = let (a, s) = m w.db in (returns a, record w { db = s })
