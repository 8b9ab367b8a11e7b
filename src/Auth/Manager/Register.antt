-- ===== src/Auth/Manager/Register.antt =====
-- `registerUser`: what it adds to the users table, on every path.
use pqc_api.Prelude.{
  ◌<◌, ◌≡◌, ◌⊎◌, inl, inr, refl, ap, true, false, ◌||◌, none, some, List, [], ◌∷◌, ◌++◌, arith, ltb,
  length, is_empty, Bytes, text, str_eq_refl, Bool-cases, Option-cases, All-mono, Lacks,
}
use pqc_api.Prelude.Int.{pos}
use pqc_api.Std.Outcome.{Outcome, returns, throws}
use pqc_api.Std.Strings.{c_str_of_Lacks}
use pqc_api.External.Redis.{Redis}
use pqc_api.External.Postgres.{Postgres}
use pqc_api.External.Sodium.{Sodium, PasswordLaws}
use pqc_api.Persistence.Users.{User}
use pqc_api.Persistence.Users.Table.{
  UserTable, Inserted, named, find_by_username_lem, save_free, save_taken,
}
use pqc_api.Auth.World.{World}
use pqc_api.Auth.Manager.{
  AuthResult, failure, saved, hash_password, verify_password, create_user, register_user,
}

abbrev pub registered : Bytes → AuthResult
registered username = record { success = true; user_id = username; token = []; error = [] }

abbrev pub IsRefused : Outcome AuthResult → Type 0
IsRefused (returns r) = r.success ≡ false
IsRefused (throws e) = Unit

-- The hash of the new row is one that the password verifies against.
pub record Registered (S : Sodium) (username password : Bytes) (before after : List User)
    : Type 0 where
  pub hash : Bytes
  pub inserted : Inserted username hash before after
  pub verifies : verify_password S password hash ≡ true

module _ (R : Redis) (D : Postgres) (S : Sodium) (P : PasswordLaws S) (T : UserTable D) where
  hash-Lacks : (salt password hash : Bytes) → S.pwhash_str salt password ≡ some hash → Lacks 0 hash
  hash-Lacks salt password hash e = All-mono (λ c h. h.1) _ (P.hash_text salt password hash e)

  accepts-hash :
      (salt password hash : Bytes) → S.pwhash_str salt password ≡ some hash → T.accepts hash ≡ true
  accepts-hash salt password hash e =
      T.accepts_ascii hash (All-mono (λ c h. h.0) _ (P.hash_text salt password hash e))
        (hash-Lacks salt password hash e)

  hash_password-verifies :
      (salt password hash : Bytes)
      → S.pwhash_str salt password ≡ some hash
      → verify_password S password hash ≡ true
  unfolding verify_password
  hash_password-verifies salt password hash e =
      rw (verify_password, c_str_of_Lacks hash (hash-Lacks salt password hash e))
        (P.verify-hash salt password hash e)

  module _ (w : World R D) (up : T.is_up w.db ≡ true) (salt username password : Bytes)
      (clean : T.accepts username ≡ true) where
    abbrev OutcomeOf : Outcome AuthResult × World R D → Type 0
    OutcomeOf (r, w') =
        ((r ≡ returns (registered username))
          × Registered S username password (T.users w.db) (T.users w'.db))
        ⊎ (IsRefused r × (T.users w'.db ≡ T.users w.db))

    create_user-free :
        named username (T.users w.db) ≡ none
        → OutcomeOf (create_user R D S salt username password w)
    unfolding create_user hash_password
    create_user-free free = elim (Option-cases (S.pwhash_str salt password)) [
      | inl failed ↦ rw failed (inr (tt, refl))
      | inr (hash, hashed) ↦
          rw hashed
            (elim (save_free D T w.db username hash clean (accepts-hash salt password hash hashed)
              up free) [
                | inl (done, inserted) ↦ inl (
                  ap (λ b. returns (saved R D username b)) done,
                  record {
                    hash = hash;
                    inserted = inserted;
                    verifies = hash_password-verifies salt password hash hashed;
                  },
                )
                | inr (failed, same) ↦ inr (ap (λ b. (saved R D username b).success) failed, same)
              ])
    ]

    -- A name or a password that is too short is refused before anything is looked up.
    register_user_short :
        (is_empty username || ltb (length password) 8) ≡ true
        → register_user R D S salt username password w
          ≡ (returns (failure (text "Username empty or password too short")), w)
    unfolding register_user
    register_user_short short = rw short

    register_user_taken :
        (is_empty username || ltb (length password) 8) ≡ false
        → (u : User) → named username (T.users w.db) ≡ some u
        → register_user R D S salt username password w
          ≡ (returns (failure (text "Username already exists")), w)
    unfolding register_user
    register_user_taken long u taken =
        rw (long, find_by_username_lem D T w.db username clean up, taken)

    register_user_free :
        (is_empty username || ltb (length password) 8) ≡ false
        → named username (T.users w.db) ≡ none
        → register_user R D S salt username password w ≡ create_user R D S salt username password w
    unfolding register_user
    register_user_free long free = rw (long, find_by_username_lem D T w.db username clean up, free)

    register_user-OutcomeOf : OutcomeOf (register_user R D S salt username password w)
    register_user-OutcomeOf = elim (Bool-cases (is_empty username || ltb (length password) 8)) [
      | inl short ↦ rw (register_user_short short) (inr (refl, refl))
      | inr long ↦ elim (Option-cases (named username (T.users w.db))) [
        | inl free ↦ rw (register_user_free long free) (create_user-free free)
        | inr (u, taken) ↦ rw (register_user_taken long u taken) (inr (refl, refl))
      ]
    ]

    pub register_user_outcome :
        (((register_user R D S salt username password w).0 ≡ returns (registered username))
          × Registered S username password
              (T.users w.db)
              (T.users (register_user R D S salt username password w).1.db))
        ⊎ (IsRefused (register_user R D S salt username password w).0
            × (T.users (register_user R D S salt username password w).1.db ≡ T.users w.db))
    register_user_outcome = register_user-OutcomeOf

    -- While the database can be reached and for a name that it accepts: an empty name, a password
    -- shorter than eight bytes and a name that is taken are each refused, and nothing changes.
    pub register_user_refused :
        ((is_empty username ≡ true)
          ⊎ (length password < 8)
          ⊎ ((u : User) × (named username (T.users w.db) ≡ some u)))
        → (message : Bytes) × (register_user R D S salt username password w
            ≡ (returns (failure message), w))
    register_user_refused cause = elim (Bool-cases (is_empty username || ltb (length password) 8)) [
      | inl short ↦ (text "Username empty or password too short", register_user_short short)
      | inr long ↦ elim cause [
        | inl empty ↦ absurd (ground arith)
        | inr (inl few) ↦ absurd (ground arith)
        | inr (inr (u, taken)) ↦ (text "Username already exists", register_user_taken long u taken)
      ]
    ]

    named-append :
        (users : List User) (row : User)
        → named username users ≡ none
        → row.username ≡ username
        → named username (users ++ row ∷ []) ≡ some row
    named-append [] row free e = rw (e, str_eq_refl)
    named-append (u ∷ users) row free e = ground (arith, named-append users row)

    -- While the database can be reached and for a name that it accepts: after a registration that
    -- succeeded the name belongs to a user with the role 0, whose stored hash the password verifies
    -- against.
    pub register_user-can_login :
        (register_user R D S salt username password w).0 ≡ returns (registered username)
        → (user : User) × (named username
              (T.users (register_user R D S salt username password w).1.db)
            ≡ some user)
          × (user.role ≡ pos 0)
          × (verify_password S password user.password_hash ≡ true)
    register_user-can_login done = elim (Option-cases (named username (T.users w.db))) [
      | inl free ↦ elim register_user_outcome [
        | inl (_, r) ↦ (
          r.inserted.row,
          rw r.inserted.added (named-append _ r.inserted.row free r.inserted.row_name),
          r.inserted.row_role,
          rw r.inserted.row_hash r.verifies,
        )
        | inr (refused, _) ↦ let wrong = rw done at refused in cc
      ]
      | inr (u, taken) ↦
          let (message, refused) = register_user_refused (inr (inr (u, taken))) in
          let wrong : returns (failure message) ≡ returns (registered username) =
            rw refused at done in
          cc
    ]

    -- While the database can be reached and for a name that it accepts: the part of `registerUser`
    -- behind the lookup, run when the name has been taken since, reports success although the table
    -- keeps its rows, so that the new password is stored nowhere. The hashing is taken to succeed.
    pub create_user_taken :
        (u : User) (hash : Bytes)
        → named username (T.users w.db) ≡ some u
        → S.pwhash_str salt password ≡ some hash
        → ((create_user R D S salt username password w).0 ≡ returns (registered username))
          × (T.users (create_user R D S salt username password w).1.db ≡ T.users w.db)
    unfolding create_user hash_password
    create_user_taken u hash taken hashed =
        let (done, same) =
          save_taken D T w.db username hash u clean (accepts-hash salt password hash hashed)
            (P.hash_length salt password hash hashed) up taken in
        rw hashed (ap (λ b. returns (saved R D username b)) done, same)
