-- ===== src/Persistence/Users/Table.antt =====
-- What PostgreSQL documents of the statements of src/persistence/UserRepository.cpp on the table of
-- scripts/init.sql, and what the repository's methods do by it.
use pqc_api.Prelude.{
  ◌≡◌, ◌⊎◌, inl, inr, ap, Bool, true, false, Option, none, some, List, [], ◌∷◌, ◌++◌, map,
  if◌then◌else◌, length, ◌<◌, Bytes, Lacks, str_eq,
}
use pqc_api.Prelude.Int.{ℤ, pos, eq_ℤ}
use pqc_api.Std.Outcome.{returns, throws, sql_error}
use pqc_api.Std.Decimal.{to_string}
use pqc_api.External.Postgres.{Postgres}
use pqc_api.External.Json.{IsAscii}
use pqc_api.Persistence.PostgreSqlClient.{query, execute, succeeded}
use pqc_api.Persistence.Users.{
  User, read_user, first_user, save, remove, set_role, find_by_id, find_by_username,
  insert_user_sql, user_by_id_sql, user_by_name_sql, delete_user_sql, set_role_sql,
}

abbrev pub named : Bytes → List User → Option User
named name [] = none
named name (u ∷ us) = if str_eq u.username name then some u else named name us

abbrev pub with_id : ℤ → List User → Option User
with_id id [] = none
with_id id (u ∷ us) = if eq_ℤ u.id id then some u else with_id id us

abbrev pub assign_role : Bytes → ℤ → User → User
assign_role name role u = if str_eq u.username name then record u { role = role } else u

abbrev pub without : ℤ → List User → List User
without id [] = []
without id (u ∷ us) = if eq_ℤ u.id id then without id us else u ∷ without id us

-- The table after a row was added.
pub record Inserted (name hash : Bytes) (before after : List User) : Type 0 where
  pub row : User
  pub row_name : row.username ≡ name
  pub row_hash : row.password_hash ≡ hash
  pub row_role : row.role ≡ pos 0
  pub row_id : with_id row.id before ≡ none
  pub added : after ≡ before ++ row ∷ []

module _ (D : Postgres) where
  -- The rows of a result that holds at most one user: both lookups are by a unique column.
  abbrev pub Rows : List D.Row → Option User → Type 0
  Rows rows none = rows ≡ []
  Rows rows (some u) = (row : D.Row) × (rows ≡ row ∷ []) × (read_user D row ≡ returns u)

  abbrev pub Selected : Bytes → Bytes → D.State → Option User → Type 0
  Selected sql param s found =
      (rows : List D.Row) × (query D sql (param ∷ []) s ≡ (returns rows, s)) × Rows rows found

  pub record UserTable : Type 0 where
    -- The texts that a parameter can hold: NUL ends one, and others are refused if they are not in
    -- the encoding of the database.
    pub accepts : Bytes → Bool
    pub accepts_ascii : (t : Bytes) → IsAscii t → Lacks 0 t → accepts t ≡ true
    pub is_up : D.State → Bool
    pub users : D.State → List User
    pub select_by_name :
        (s : D.State) (name : Bytes)
        → accepts name ≡ true
        → is_up s ≡ true
        → Selected user_by_name_sql name s (named name (users s))
    pub select_by_id :
        (s : D.State) (id : ℤ)
        → is_up s ≡ true
        → Selected user_by_id_sql (to_string id) s (with_id id (users s))
    -- A name that is taken: nothing is done, and no error is reported.
    pub insert_conflict :
        (s : D.State) (name hash : Bytes) (u : User)
        → accepts name ≡ true
        → accepts hash ≡ true
        → length hash < 128
        → is_up s ≡ true
        → named name (users s) ≡ some u
        → ((query D insert_user_sql (name ∷ hash ∷ []) s).0 ≡ returns [])
          × (users (query D insert_user_sql (name ∷ hash ∷ []) s).1 ≡ users s)
    -- A free name: the row is added with a new id and the default role, or the statement fails.
    pub insert_new :
        (s : D.State) (name hash : Bytes)
        → accepts name ≡ true
        → accepts hash ≡ true
        → is_up s ≡ true
        → named name (users s) ≡ none
        → (((query D insert_user_sql (name ∷ hash ∷ []) s).0 ≡ returns [])
            × Inserted name hash (users s) (users (query D insert_user_sql (name ∷ hash ∷ []) s).1))
          ⊎ (((query D insert_user_sql (name ∷ hash ∷ []) s).0 ≡ throws sql_error)
              × (users (query D insert_user_sql (name ∷ hash ∷ []) s).1 ≡ users s))
    pub update_role :
        (s : D.State) (name : Bytes) (role : ℤ)
        → accepts name ≡ true
        → is_up s ≡ true
        → ((query D set_role_sql (name ∷ to_string role ∷ []) s).0 ≡ returns [])
          × (users (query D set_role_sql (name ∷ to_string role ∷ []) s).1
              ≡ map (assign_role name role) (users s))
    pub delete_row :
        (s : D.State) (id : ℤ)
        → is_up s ≡ true
        → ((query D delete_user_sql (to_string id ∷ []) s).0 ≡ returns [])
          × (users (query D delete_user_sql (to_string id ∷ []) s).1 ≡ without id (users s))
    -- A lost connection.
    pub down :
        (s : D.State) (sql : Bytes) (params : List Bytes)
        → is_up s ≡ false
        → query D sql params s ≡ (throws sql_error, s)

module _ (D : Postgres) where
  first_user_of_Rows :
      (rows : List D.Row) (found : Option User)
      → Rows D rows found
      → first_user D rows ≡ returns found
  unfolding first_user
  first_user_of_Rows rows none e = rw (e, first_user)
  first_user_of_Rows rows (some u) (row, e, reads) = rw (e, first_user, reads)

module _ (D : Postgres) (T : UserTable D) (s : D.State) where
  -- Both lookups return the row of the table.
  pub find_by_username_lem :
      (name : Bytes)
      → T.accepts name ≡ true
      → T.is_up s ≡ true
      → find_by_username D name s ≡ (returns (named name (T.users s)), s)
  unfolding find_by_username
  find_by_username_lem name clean up =
      let (rows, selected, fit) = T.select_by_name s name clean up in
      rw (selected, first_user_of_Rows D rows _ fit)

  pub find_by_id_lem :
      (id : ℤ) → T.is_up s ≡ true → find_by_id D id s ≡ (returns (with_id id (T.users s)), s)
  unfolding find_by_id
  find_by_id_lem id up =
      let (rows, selected, fit) = T.select_by_id s id up in
      rw (selected, first_user_of_Rows D rows _ fit)

  pub lookups_down :
      (name : Bytes) (id : ℤ)
      → T.is_up s ≡ false
      → (find_by_username D name s ≡ (throws sql_error, s))
        × (find_by_id D id s ≡ (throws sql_error, s))
  unfolding find_by_username find_by_id
  lookups_down name id down = (
    rw (T.down s user_by_name_sql (name ∷ []) down),
    rw (T.down s user_by_id_sql (to_string id ∷ []) down),
  )

  -- Saving under a free name adds the user with role 0, or reports false and adds nothing.
  pub save_free :
      (name hash : Bytes)
      → T.accepts name ≡ true
      → T.accepts hash ≡ true
      → T.is_up s ≡ true
      → named name (T.users s) ≡ none
      → (((save D name hash s).0 ≡ true)
          × Inserted name hash (T.users s) (T.users (save D name hash s).1))
        ⊎ (((save D name hash s).0 ≡ false) × (T.users (save D name hash s).1 ≡ T.users s))
  unfolding save execute
  save_free name hash clean plain up free = elim (T.insert_new s name hash clean plain up free) [
    | inl (done, inserted) ↦ inl (ap succeeded done, inserted)
    | inr (failed, same) ↦ inr (ap succeeded failed, same)
  ]

  -- Saving under a name that is taken reports true, but stores nothing.
  pub save_taken :
      (name hash : Bytes) (u : User)
      → T.accepts name ≡ true
      → T.accepts hash ≡ true
      → length hash < 128
      → T.is_up s ≡ true
      → named name (T.users s) ≡ some u
      → ((save D name hash s).0 ≡ true) × (T.users (save D name hash s).1 ≡ T.users s)
  unfolding save execute
  save_taken name hash u clean plain short up taken =
      let (done, same) = T.insert_conflict s name hash u clean plain short up taken in
      (ap succeeded done, same)

  pub save_down : (name hash : Bytes) → T.is_up s ≡ false → save D name hash s ≡ (false, s)
  unfolding save execute
  save_down name hash down = rw (T.down s insert_user_sql (name ∷ hash ∷ []) down)

  -- Assigning a role changes the role of the user with that name and nothing else.
  pub set_role_lem :
      (name : Bytes) (role : ℤ)
      → T.accepts name ≡ true
      → T.is_up s ≡ true
      → ((set_role D name role s).0 ≡ true)
        × (T.users (set_role D name role s).1 ≡ map (assign_role name role) (T.users s))
  unfolding set_role execute
  set_role_lem name role clean up =
      let (done, after) = T.update_role s name role clean up in (ap succeeded done, after)

  pub remove_lem :
      (id : ℤ)
      → T.is_up s ≡ true
      → ((remove D id s).0 ≡ true) × (T.users (remove D id s).1 ≡ without id (T.users s))
  unfolding remove execute
  remove_lem id up = let (done, after) = T.delete_row s id up in (ap succeeded done, after)
