-- ===== src/Persistence/Users.antt =====
-- src/persistence/UserRepository.cpp
pub mod Table
pub mod Grown
use pqc_api.Prelude.{Bool, Option, none, some, List, [], ◌∷◌, Bytes, text}
use pqc_api.Prelude.Int.{ℤ}
use pqc_api.Std.Outcome.{Outcome, returns, sql_error, or_throw, ◌>>=◌}
use pqc_api.Std.Exec.{Exec, lift, ◌>>=◌ as ◌>>>=◌}
use pqc_api.Std.Decimal.{to_string}
use pqc_api.External.Postgres.{Postgres}
use pqc_api.Persistence.PostgreSqlClient.{query, execute}

pub record User : Type 0 where
  pub id : ℤ
  pub username : Bytes
  pub password_hash : Bytes
  pub created_at : Bytes
  pub role : ℤ

abbrev pub insert_user_sql : Bytes
insert_user_sql =
    text
      "INSERT INTO users (username, password_hash) VALUES ($1, $2) ON CONFLICT (username) DO NOTHING"

abbrev pub user_by_id_sql : Bytes
user_by_id_sql =
    text "SELECT id, username, password_hash, created_at, role FROM users WHERE id = $1"

abbrev pub user_by_name_sql : Bytes
user_by_name_sql =
    text "SELECT id, username, password_hash, created_at, role FROM users WHERE username = $1"

abbrev pub delete_user_sql : Bytes
delete_user_sql = text "DELETE FROM users WHERE id = $1"

abbrev pub set_role_sql : Bytes
set_role_sql = text "UPDATE users SET role = $2 WHERE username = $1"

module _ (D : Postgres) where
  unfoldable pub read_user : D.Row → Outcome User
  read_user row = do
    id ← or_throw sql_error (D.as_int row (text "id"))
    username ← or_throw sql_error (D.as_text row (text "username"))
    password_hash ← or_throw sql_error (D.as_text row (text "password_hash"))
    created_at ← or_throw sql_error (D.as_text row (text "created_at"))
    role ← or_throw sql_error (D.as_int row (text "role"))
    returns (record {
      id = id;
      username = username;
      password_hash = password_hash;
      created_at = created_at;
      role = role;
    })

  -- The first row, if there is one.
  unfoldable pub first_user : List D.Row → Outcome (Option User)
  first_user [] = returns none
  first_user (row ∷ rows) = do u ← read_user row; returns (some u)

  unfoldable pub save : Bytes → Bytes → D.State → Bool × D.State
  save username password_hash s = execute D insert_user_sql (username ∷ password_hash ∷ []) s

  unfoldable pub find_by_id : ℤ → Exec D.State (Option User)
  find_by_id id = query D user_by_id_sql (to_string id ∷ []) >>>= λ rows. lift (first_user rows)

  unfoldable pub find_by_username : Bytes → Exec D.State (Option User)
  find_by_username username =
      query D user_by_name_sql (username ∷ []) >>>= λ rows. lift (first_user rows)

  unfoldable pub remove : ℤ → D.State → Bool × D.State
  remove id s = execute D delete_user_sql (to_string id ∷ []) s

  unfoldable pub set_role : Bytes → ℤ → D.State → Bool × D.State
  set_role username role s = execute D set_role_sql (username ∷ to_string role ∷ []) s
