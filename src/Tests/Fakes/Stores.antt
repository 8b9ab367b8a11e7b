-- ===== src/Tests/Fakes/Stores.antt =====
-- A Redis server and a PostgreSQL database in memory.
use pqc_api.Prelude.{
  ℕ, suc, ◌+◌, ◌≤◌, ◌≡◌, inl, refl, Bool, true, false, Option, none, some, List, [], ◌∷◌, ◌++◌, map,
  arith, if◌then◌else◌, Bytes, text, str_eq,
}
use pqc_api.Prelude.Int.{ℤ, pos, pos_part}
use pqc_api.Std.Outcome.{Outcome, returns, throws, sql_error}
use pqc_api.Std.Decimal.{to_string}
use pqc_api.External.Redis.{
  Redis, RedisLaws, RedisReply, Command, setex, get, del, exists, expire, status_reply, Entry,
  entry_value, age, retime, value_reply, count_reply,
}
use pqc_api.External.Postgres.{Postgres}
use pqc_api.Persistence.PostgreSqlClient.{query}
use pqc_api.Tests.Fakes.Text.{read_number, read_number-to_string}
use mathlib.Core.Option
use pqc_api.Persistence.Users.{
  User, read_user, insert_user_sql, user_by_id_sql, user_by_name_sql, delete_user_sql, set_role_sql,
}
use pqc_api.Persistence.Users.Table.{
  UserTable, Inserted, Rows, named, with_id, assign_role, without,
}

pub record Server : Type 0 where
  pub up : Bool
  pub entries : Bytes → Entry

abbrev put : Bytes → Entry → Server → Server
put k e s = record s { entries = λ j. if str_eq j k then e else s.entries j }

abbrev pub answer : Command → Server → Option RedisReply × Server
answer (setex k t v) s =
    (some (record { type = status_reply; str = text "OK"; integer = 0 }), put k (some (v, t)) s)
answer (get k) s = (some (value_reply (entry_value (s.entries k))), s)
answer (exists k) s = (some (count_reply (s.entries k)), s)
answer (del k) s = (some (count_reply (s.entries k)), put k none s)
answer (expire k t) s = (
  some (count_reply (s.entries k)),
  record s { entries = λ j. if str_eq j k then retime t (s.entries j) else s.entries j },
)

abbrev pub reach : Bool → Command → Server → Option RedisReply × Server
reach true c s = answer c s
reach false c s = (none, s)

abbrev pub redis : Redis
redis = record { State = Server; command = λ c s. reach s.up c s }

pub up-reach : (b : Bool) (c : Command) (s : Server) → (reach b c s).1.up ≡ s.up
up-reach false c s = refl
up-reach true (setex k t v) s = refl
up-reach true (get k) s = refl
up-reach true (exists k) s = refl
up-reach true (del k) s = refl
up-reach true (expire k t) s = refl

abbrev pub redis-RedisLaws : RedisLaws redis
redis-RedisLaws = record {
  is_up = λ s. s.up;
  entry = λ s. s.entries;
  elapse = λ n s. record s { entries = λ j. age n (s.entries j) };
  entry-elapse = λ n s k. refl;
  is_up-elapse = λ n s. refl;
  is_up-command = λ c s. up-reach s.up c s;
  down = λ c s e. rw e;
  setex_replies = λ k v t s e. (text "OK", rw e);
  entry-setex = λ k v t s j e. rw e;
  get_lem = λ k s e. rw e;
  exists_lem = λ k s e. rw e;
  del_replies = λ k s e. rw e;
  entry-del = λ k s j e. rw e;
  expire_replies = λ k t s e. rw e;
  entry-expire = λ k t s j e. rw e;
}

pub data Statement : Type 0 where
  insert_user select_id select_name delete_user update_role : Statement

unfoldable pub classify : Bytes → Option Statement
classify sql =
    if str_eq sql insert_user_sql
    then some insert_user
    else if str_eq sql user_by_id_sql
    then some select_id
    else if str_eq sql user_by_name_sql
    then some select_name
    else if str_eq sql delete_user_sql
    then some delete_user
    else if str_eq sql set_role_sql
    then some update_role
    else none

pub classified :
    (classify insert_user_sql ≡ some insert_user)
    × (classify user_by_id_sql ≡ some select_id)
    × (classify user_by_name_sql ≡ some select_name)
    × (classify delete_user_sql ≡ some delete_user)
    × (classify set_role_sql ≡ some update_role)
unfolding classify str_eq text
classified = (refl, refl, refl, refl, refl)

abbrev pub rows_of : Option User → List User
rows_of none = []
rows_of (some u) = u ∷ []

-- Above every id in use.
unfoldable pub fresh : List User → ℕ
fresh [] = 1
fresh (u ∷ us) = suc (pos_part u.id + fresh us)

abbrev pub new_user : Bytes → Bytes → List User → User
unfolding fresh
new_user name hash us = record {
  id = pos (fresh us);
  username = name;
  password_hash = hash;
  created_at = text "2026-01-01 00:00:00";
  role = pos 0;
}

abbrev pub insert_into : Bytes → Bytes → List User → Option User → List User
insert_into name hash us none = us ++ new_user name hash us ∷ []
insert_into name hash us (some u) = us

unfoldable pub perform : Statement → List Bytes → List User → Option (List User × List User)
perform insert_user (name ∷ hash ∷ []) us = some ([], insert_into name hash us (named name us))
perform select_id (id ∷ []) us = some (rows_of (with_id (read_number id) us), us)
perform select_name (name ∷ []) us = some (rows_of (named name us), us)
perform delete_user (id ∷ []) us = some ([], without (read_number id) us)
perform update_role (name ∷ role ∷ []) us = some ([], map (assign_role name (read_number role)) us)
perform statement params us = none

pub record Database : Type 0 where
  pub up : Bool
  pub users : List User

abbrev pub begin_at : Bool → Database → Option Database
begin_at true s = some s
begin_at false s = none

abbrev pub run_on : Option Statement → List Bytes → Database → Option (List User × Database)
run_on none params s = none
run_on (some statement) params s =
    Option.map (λ (rows, us). (rows, record s { users = us })) (perform statement params s.users)

abbrev pub int_column : User → Bytes → Option ℤ
int_column u column =
    if str_eq column (text "id")
    then some u.id
    else if str_eq column (text "role")
    then some u.role
    else none

abbrev pub text_column : User → Bytes → Option Bytes
text_column u column =
    if str_eq column (text "username")
    then some u.username
    else if str_eq column (text "password_hash")
    then some u.password_hash
    else if str_eq column (text "created_at")
    then some u.created_at
    else none

abbrev pub postgres : Postgres
postgres = record {
  State = Database;
  Txn = Database;
  Row = User;
  begin = λ s. begin_at s.up s;
  exec = λ sql s. run_on (classify sql) [] s;
  exec_params = λ sql params s. run_on (classify sql) params s;
  commit = λ s. (true, s);
  abort = λ s. s;
  as_int = int_column;
  as_text = text_column;
}

read_user-row : (u : User) → read_user postgres u ≡ returns u
unfolding read_user str_eq text
read_user-row u = refl

pub with_id-fresh : (us : List User) (n : ℕ) → fresh us ≤ n → with_id (pos n) us ≡ none
unfolding fresh
with_id-fresh [] n h = refl
with_id-fresh (u ∷ us) n h = ground (arith, with_id-fresh us n)

pub Rows-rows_of : (found : Option User) → Rows postgres (rows_of found) found
Rows-rows_of none = refl
Rows-rows_of (some u) = (u, refl, read_user-row u)

module _ (s : Database) (up : s.up ≡ true) where
  pub query-select_name :
      (name : Bytes)
      → query postgres user_by_name_sql (name ∷ []) s ≡ (returns (rows_of (named name s.users)), s)
  unfolding query perform
  query-select_name name = rw (up, classified.2)

  pub query-select_id :
      (id : ℤ)
      → query postgres user_by_id_sql (to_string id ∷ []) s
        ≡ (returns (rows_of (with_id id s.users)), s)
  unfolding query perform
  query-select_id id = rw (up, classified.1, read_number-to_string)

  pub query-insert :
      (name hash : Bytes)
      → query postgres insert_user_sql (name ∷ hash ∷ []) s
        ≡ (returns [], record s { users = insert_into name hash s.users (named name s.users) })
  unfolding query perform
  query-insert name hash = rw (up, classified.0)

  pub query-update_role :
      (name : Bytes) (role : ℤ)
      → query postgres set_role_sql (name ∷ to_string role ∷ []) s
        ≡ (returns [], record s { users = map (assign_role name role) s.users })
  unfolding query perform
  query-update_role name role = rw (up, classified.4, read_number-to_string)

  pub query-delete :
      (id : ℤ)
      → query postgres delete_user_sql (to_string id ∷ []) s
        ≡ (returns [], record s { users = without id s.users })
  unfolding query perform
  query-delete id = rw (up, classified.3, read_number-to_string)

pub query-down :
    (s : Database) (sql : Bytes) (params : List Bytes)
    → s.up ≡ false
    → query postgres sql params s ≡ (throws sql_error, s)
unfolding query
query-down s sql params e = rw e

abbrev users_after : Outcome (List User) × Database → List User
users_after r = r.1.users

pub insert_conflict_lem :
    (s : Database) (name hash : Bytes) (u : User)
    → s.up ≡ true
    → named name s.users ≡ some u
    → ((query postgres insert_user_sql (name ∷ hash ∷ []) s).0 ≡ returns [])
      × ((query postgres insert_user_sql (name ∷ hash ∷ []) s).1.users ≡ s.users)
insert_conflict_lem s name hash u up taken = rw (query-insert s up name hash, taken) (refl, refl)

pub insert_new_lem :
    (s : Database) (name hash : Bytes)
    → s.up ≡ true
    → named name s.users ≡ none
    → ((query postgres insert_user_sql (name ∷ hash ∷ []) s).0 ≡ returns [])
      × Inserted name hash s.users (query postgres insert_user_sql (name ∷ hash ∷ []) s).1.users
unfolding new_user
insert_new_lem s name hash up free =
    rw (query-insert s up name hash, free)
      (
        refl,
        record {
          row = new_user name hash s.users;
          row_name = refl;
          row_hash = refl;
          row_role = refl;
          row_id = with_id-fresh s.users (fresh s.users) (omega arith);
          added = refl;
        },
      )

abbrev pub postgres-UserTable : UserTable postgres
postgres-UserTable = record {
  accepts = λ t. true;
  accepts_ascii = λ t a l. refl;
  is_up = λ s. s.up;
  users = λ s. s.users;
  select_by_name =
      λ s name clean up. (_, query-select_name s up name, Rows-rows_of (named name s.users));
  select_by_id = λ s id up. (_, query-select_id s up id, Rows-rows_of (with_id id s.users));
  insert_conflict = λ s name hash u clean plain short. insert_conflict_lem s name hash u;
  insert_new = λ s name hash clean plain up free. inl (insert_new_lem s name hash up free);
  update_role = λ s name role clean up. rw (query-update_role s up name role) (refl, refl);
  delete_row = λ s id up. rw (query-delete s up id) (refl, refl);
  down = query-down;
}
