-- ===== src/Tests/Fakes/SharedUsers.antt =====
-- The users table of the database that holds both.
use pqc_api.Prelude.{
  ◌≡◌, refl, ◌∙◌, ap, inl, true, false, Option, none, some, List, [], ◌∷◌, map, Bytes, text, str_eq,
}
use pqc_api.Prelude.Int.{ℤ}
use pqc_api.Std.Outcome.{returns, throws, sql_error}
use pqc_api.Std.Decimal.{to_string}
use pqc_api.Persistence.PostgreSqlClient.{query}
use pqc_api.Persistence.Users.{
  User, read_user, insert_user_sql, user_by_id_sql, user_by_name_sql, delete_user_sql, set_role_sql,
}
use pqc_api.Persistence.Users.Table.{
  UserTable, Rows, Inserted, named, with_id, assign_role, without,
}
use pqc_api.Tests.Fakes.Stores as Fake
use pqc_api.Tests.Fakes.Stores.{rows_of, insert_into, postgres}
use pqc_api.Tests.Fakes.Shared.{Tables, user, tables, users_of, lift_users, query-user}

read_user-user : (u : User) → read_user tables (user u) ≡ returns u
unfolding read_user str_eq text
read_user-user u = refl

pub Rows-user : (found : Option User) → Rows tables (map user (rows_of found)) found
Rows-user none = refl
Rows-user (some u) = (user u, refl, read_user-user u)

module _ (s : Tables) (up : s.up ≡ true) where
  pub by_name :
      (name : Bytes)
      → query tables user_by_name_sql (name ∷ []) s
        ≡ (returns (map user (rows_of (named name s.users))), s)
  by_name name =
      query-user user_by_name_sql name [] s _ Fake.classified.2
      ∙ ap (lift_users s) (Fake.query-select_name (users_of s) up name)

  pub by_id :
      (id : ℤ)
      → query tables user_by_id_sql (to_string id ∷ []) s
        ≡ (returns (map user (rows_of (with_id id s.users))), s)
  by_id id =
      query-user user_by_id_sql (to_string id) [] s _ Fake.classified.1
      ∙ ap (lift_users s) (Fake.query-select_id (users_of s) up id)

  pub insert :
      (name hash : Bytes)
      → query tables insert_user_sql (name ∷ hash ∷ []) s
        ≡ (returns [], record s { users = insert_into name hash s.users (named name s.users) })
  insert name hash =
      query-user insert_user_sql name (hash ∷ []) s _ Fake.classified.0
      ∙ ap (lift_users s) (Fake.query-insert (users_of s) up name hash)

  pub update_role :
      (name : Bytes) (role : ℤ)
      → query tables set_role_sql (name ∷ to_string role ∷ []) s
        ≡ (returns [], record s { users = map (assign_role name role) s.users })
  update_role name role =
      query-user set_role_sql name (to_string role ∷ []) s _ Fake.classified.4
      ∙ ap (lift_users s) (Fake.query-update_role (users_of s) up name role)

  pub delete :
      (id : ℤ)
      → query tables delete_user_sql (to_string id ∷ []) s
        ≡ (returns [], record s { users = without id s.users })
  delete id =
      query-user delete_user_sql (to_string id) [] s _ Fake.classified.3
      ∙ ap (lift_users s) (Fake.query-delete (users_of s) up id)

  pub inserted :
      (name hash : Bytes)
      → named name s.users ≡ none
      → Inserted name hash s.users (insert_into name hash s.users none)
  inserted name hash free =
      let (done, i) = Fake.insert_new_lem (users_of s) name hash up free in
      rw (Fake.query-insert (users_of s) up name hash, free) at i

pub query_down :
    (s : Tables) (sql : Bytes) (params : List Bytes)
    → s.up ≡ false
    → query tables sql params s ≡ (throws sql_error, s)
unfolding query
query_down s sql params e = rw e

pub insert_conflict_lem :
    (s : Tables) (name hash : Bytes) (u : User)
    → s.up ≡ true
    → named name s.users ≡ some u
    → ((query tables insert_user_sql (name ∷ hash ∷ []) s).0 ≡ returns [])
      × ((query tables insert_user_sql (name ∷ hash ∷ []) s).1.users ≡ s.users)
insert_conflict_lem s name hash u up taken = rw (insert s up name hash, taken) (refl, refl)

pub insert_new_lem :
    (s : Tables) (name hash : Bytes)
    → s.up ≡ true
    → named name s.users ≡ none
    → ((query tables insert_user_sql (name ∷ hash ∷ []) s).0 ≡ returns [])
      × Inserted name hash s.users (query tables insert_user_sql (name ∷ hash ∷ []) s).1.users
insert_new_lem s name hash up free =
    rw (insert s up name hash, free) (refl, inserted s up name hash free)

pub update_role_lem :
    (s : Tables) (name : Bytes) (role : ℤ)
    → s.up ≡ true
    → ((query tables set_role_sql (name ∷ to_string role ∷ []) s).0 ≡ returns [])
      × ((query tables set_role_sql (name ∷ to_string role ∷ []) s).1.users
          ≡ map (assign_role name role) s.users)
update_role_lem s name role up = rw (update_role s up name role) (refl, refl)

pub delete_lem :
    (s : Tables) (id : ℤ)
    → s.up ≡ true
    → ((query tables delete_user_sql (to_string id ∷ []) s).0 ≡ returns [])
      × ((query tables delete_user_sql (to_string id ∷ []) s).1.users ≡ without id s.users)
delete_lem s id up = rw (delete s up id) (refl, refl)

abbrev pub tables-UserTable : UserTable tables
tables-UserTable = record {
  accepts = λ t. true;
  accepts_ascii = λ t a l. refl;
  is_up = λ s. s.up;
  users = λ s. s.users;
  select_by_name = λ s name clean up. (_, by_name s up name, Rows-user (named name s.users));
  select_by_id = λ s id up. (_, by_id s up id, Rows-user (with_id id s.users));
  insert_conflict = λ s name hash u clean plain short. insert_conflict_lem s name hash u;
  insert_new = λ s name hash clean plain up free. inl (insert_new_lem s name hash up free);
  update_role = λ s name role clean up. update_role_lem s name role up;
  delete_row = λ s id up. delete_lem s id up;
  down = query_down;
}
