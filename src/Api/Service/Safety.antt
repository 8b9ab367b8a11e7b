-- ===== src/Api/Service/Safety.antt =====
-- What no call of the service does, whoever makes it and in whatever state: it changes no user, makes
-- no admin, and removes no document but for its owner.
use pqc_api.Prelude.{
  ℕ, ◌≡◌, ◌≢◌, ◌↔◌, refl, sym, inl, inr, Bool, true, false, some, [], ◌∷◌, Bytes, Bool-cases,
  Option-cases,
}
use pqc_api.Prelude.Int.{ℤ, pos, eq_ℤ, eq_ℤ_iff}
use mathlib.Core.Path.{subst}
use pqc_api.Std.Outcome.{returns, Outcome-cases}
use pqc_api.Std.Decimal.{to_string, stoi}
use pqc_api.External.Openssl.{Openssl}
use pqc_api.External.Evp.{Evp}
use pqc_api.External.Json.{Json}
use pqc_api.External.Redis.{Redis, RedisLaws}
use pqc_api.External.Postgres.{Postgres}
use pqc_api.External.Sodium.{Sodium}
use pqc_api.External.X509.{X509}
use pqc_api.Persistence.Users.{User}
use pqc_api.Persistence.Users.Table as UserRows
use pqc_api.Persistence.Users.Table.{UserTable}
use pqc_api.Persistence.Users.Grown.{Grown, same, Grown-trans, Grown-keeps, Grown-privileged}
use pqc_api.Persistence.Documents.{delete_by_id, owned_by, owned_by_sql}
use pqc_api.Persistence.Documents.Table.{Stored, DocumentTable, with_id, owned, owned_by_lem}
use pqc_api.Persistence.Shared.{SharedTables}
use pqc_api.Crypto.Signer.{Signer}
use pqc_api.Pki.Certificate.{Certificate}
use pqc_api.Auth.World.{World}
use pqc_api.Auth.Manager as Auth
use pqc_api.Api.Http.{extract_user_id}
use pqc_api.Api.Http.Guard.{with_user_refused, with_user_accepted}
use pqc_api.Api.Accounts as Accounts
use pqc_api.Api.Documents as Documents
use pqc_api.Api.Documents.{with_owned, delete_owned, deleted}
use pqc_api.Api.Documents.Ownership.{with_id-without}
use pqc_api.Api.Service.Rules.{tables-Kept, Respects-unchanged, Safe, Safe-refl}
use pqc_api.Api.Service.Calls as Calls
use pqc_api.Api.Service.DocumentCalls as DocumentCalls
use pqc_api.Api.Service.{
  Handler, register_user, login, get_profile, logout, check, health, sign, list, download, verify,
  remove, public_key, verify_external, Call, serve,
}

module _ (O : Openssl) (J : Json) (E : Evp) (X : X509) (S : Sodium) (R : Redis) (D : Postgres)
    (secret_key : Bytes) (signer : Signer E) (server_cert : Certificate X) (L : RedisLaws R)
    (T : UserTable D) (U : DocumentTable D) (Sh : SharedTables D T U) where
  -- The call is a `remove` of that id with an accepted token of the document's owner.
  pub record RemovesOwn (h : Handler) (c : Call) (w : World R D) (id : ℤ) (d : Stored)
      : Type 0 where
    pub handler : h ≡ remove
    pub target : c.id ≡ id
    pub user_id : Bytes
    pub accepted : (extract_user_id O J R secret_key c.now c.request w.redis).0 ≡ some user_id
    pub owner : stoi user_id ≡ returns d.document.user_id

  module _ (c : Call) (w : World R D) where
    abbrev SafeTo : D.State → Type 0
    SafeTo = Safe D T U (RemovesOwn remove c w) w.db

    -- Deleting a document that the accepted user owns.
    delete-Safe :
        (user_id : Bytes) (n : ℤ)
        → (extract_user_id O J R secret_key c.now c.request w.redis).0 ≡ some user_id
        → stoi user_id ≡ returns n
        → owned (with_id c.id (U.documents w.db)) n ≡ true
        → SafeTo (delete_by_id D c.id w.db).1
    unfolding delete_by_id
    delete-Safe user_id n accepted reads own =
        let (users, documents) = Sh.delete_document c.id w.db in
        record {
          grown = subst (Grown (T.users w.db)) (sym users) same;
          kept = λ id d other found. elim documents [
            | inl unchanged ↦ rw unchanged found
            | inr gone ↦ elim (Bool-cases (eq_ℤ c.id id)) [
              | inr differs ↦ rw (gone, with_id-without c.id id (U.documents w.db), differs) found
              | inl equal ↦
                  let target = (eq_ℤ_iff c.id id).0 equal in
                  let mine : eq_ℤ d.document.user_id n ≡ true = rw (target, found) at own in
                  let owner : d.document.user_id ≡ n = (eq_ℤ_iff d.document.user_id n).0 mine in
                  absurd (
                    other (record {
                      handler = refl;
                      target = target;
                      user_id = user_id;
                      accepted = accepted;
                      owner = rw owner reads;
                    }))
            ]
          ];
        }

    deleted-state :
        (ok : Bool) (v : World R D) → (deleted O J E signer R D secret_key c.id ok v).1 ≡ v
    deleted-state true v = refl
    deleted-state false v = refl

    with_owned-Safe :
        (user_id : Bytes)
        → (extract_user_id O J R secret_key c.now c.request w.redis).0 ≡ some user_id
        → SafeTo
            (with_owned O J E signer R D secret_key
              (delete_owned O J E signer R D secret_key c.id)
              c.id
              user_id
              w).1.db
    unfolding with_owned delete_owned owned_by
    with_owned-Safe user_id accepted = elim (Outcome-cases (stoi user_id)) [
      | inr (e, bad) ↦ rw bad (Safe-refl D T U _ w.db)
      | inl (n, reads) ↦ elim (Bool-cases (U.is_up w.db)) [
        | inr down ↦
            rw (reads, U.down w.db owned_by_sql (to_string c.id ∷ to_string n ∷ []) down)
              (Safe-refl D T U _ w.db)
        | inl up ↦ elim (Bool-cases (owned (with_id c.id (U.documents w.db)) n)) [
          | inr foreign ↦
              rw (reads, owned_by_lem D U w.db up c.id n, foreign) (Safe-refl D T U _ w.db)
          | inl own ↦
              rw (reads, owned_by_lem D U w.db up c.id n, own, deleted-state)
                (delete-Safe user_id n accepted reads own)
        ]
      ]
    ]

    remove-Safe : SafeTo (Documents.remove O J E signer R D secret_key c.now c.request c.id w).1.db
    unfolding Documents.remove
    remove-Safe = elim (Option-cases (extract_user_id O J R secret_key c.now c.request w.redis).0) [
      | inl nobody ↦
          rw (with_user_refused O J R secret_key L D c.now c.request w _ nobody)
            (Safe-refl D T U _ w.db)
      | inr (user_id, accepted) ↦
          rw (with_user_accepted O J R secret_key L D c.now c.request w _ user_id accepted)
            (with_owned-Safe user_id accepted)
    ]

  serve-Safe :
      (h : Handler) (c : Call) (w : World R D)
      → Safe D T U
          (RemovesOwn h c w)
          w.db
          (serve O J E X S R D secret_key signer server_cert h c w).1.db
  unfolding serve Accounts.check
  serve-Safe register_user c w =
      (Calls.register_user-Keeps O J R D secret_key (tables-Kept D T U Sh _ O J R secret_key) S
          c.salt c.request).at
        w
  serve-Safe login c w =
      (Calls.login-Keeps O J R D secret_key (tables-Kept D T U Sh _ O J R secret_key) c.random
          (λ user_id. Respects-unchanged D T U _ R (λ w. refl)) S c.now c.request).at
        w
  serve-Safe get_profile c w =
      (Calls.get_profile-Keeps O J R D secret_key (tables-Kept D T U Sh _ O J R secret_key) c.now
          c.request).at
        w
  serve-Safe logout c w =
      (Calls.logout-Keeps O J R D secret_key (tables-Kept D T U Sh _ O J R secret_key) c.now
          c.request (Respects-unchanged D T U _ R (λ w. refl))).at
        w
  serve-Safe check c w = Safe-refl D T U _ w.db
  serve-Safe health c w =
      (Calls.health-Keeps O J R D secret_key (tables-Kept D T U Sh _ O J R secret_key) X server_cert
          c.now c.request).at
        w
  serve-Safe sign c w =
      (DocumentCalls.sign-Keeps O J E signer R D secret_key
          (tables-Kept D T U Sh _ O J R secret_key) c.now c.request).at
        w
  serve-Safe list c w =
      (DocumentCalls.list-Keeps O J E signer R D secret_key
          (tables-Kept D T U Sh _ O J R secret_key) c.now c.request).at
        w
  serve-Safe download c w =
      (DocumentCalls.download-Keeps O J E signer R D secret_key
          (tables-Kept D T U Sh _ O J R secret_key) c.now c.request c.id).at
        w
  serve-Safe verify c w =
      (DocumentCalls.verify-Keeps O J E signer R D secret_key
          (tables-Kept D T U Sh _ O J R secret_key) c.now c.request c.id).at
        w
  serve-Safe remove c w = remove-Safe c w
  serve-Safe public_key c w =
      (DocumentCalls.public_key-Keeps O J E signer R D secret_key
          (tables-Kept D T U Sh _ O J R secret_key) c.request).at
        w
  serve-Safe verify_external c w =
      (DocumentCalls.verify_external-Keeps O J E signer R D secret_key
          (tables-Kept D T U Sh _ O J R secret_key) c.request).at
        w

  -- The worlds that a sequence of calls leads to. Time passes between them, and the second half of a
  -- registration, behind its lookup of the name, may run later than the first.
  pub data Served (w : World R D) : World R D → Type 0 where
    start : Served w w
    call :
        (h : Handler) (c : Call) {v : World R D}
        → Served w v
        → Served w (serve O J E X S R D secret_key signer server_cert h c v).1
    finish_registration :
        (salt username password : Bytes) {v : World R D}
        → Served w v
        → Served w (Auth.create_user R D S salt username password v).1
    pass :
        (seconds : ℕ) {v : World R D}
        → Served w v
        → Served w (record v { redis = L.elapse seconds v.redis })

  pub Served-Grown : {w v : World R D} → Served w v → Grown (T.users w.db) (T.users v.db)
  Served-Grown start = same
  Served-Grown (call h c {v} r) = Grown-trans (Served-Grown r) (serve-Safe h c v).grown
  Served-Grown (finish_registration salt username password {v} r) =
      Grown-trans (Served-Grown r)
        ((Calls.create_user-Keeps O J R D secret_key
            (tables-Kept D T U Sh (λ id d. Unit) O J R secret_key) S salt username password).at
          v).grown
  Served-Grown (pass seconds r) = Served-Grown r

  -- Whatever is called, in any order and by anybody: the users with another role than the default
  -- are the same before and after, so that no call makes or unmakes an admin or changes its password.
  -- The two tables are taken to be changed by the statements as PostgreSQL documents.
  pub privileged_iff :
      {w v : World R D}
      → Served w v
      → (id : ℤ) (u : User) → u.role ≢ pos 0
      → (UserRows.with_id id (T.users v.db) ≡ some u)
        ↔ (UserRows.with_id id (T.users w.db) ≡ some u)
  privileged_iff r id u special =
      (Grown-privileged id u (Served-Grown r) special, Grown-keeps id u (Served-Grown r))

  -- Whatever is called, in any order and by anybody: every user that was there is there, with the
  -- same name, password hash and role. The two tables are taken to be changed by the statements as
  -- PostgreSQL documents.
  pub users_kept :
      {w v : World R D}
      → Served w v
      → (id : ℤ) (u : User) → UserRows.with_id id (T.users w.db) ≡ some u
      → UserRows.with_id id (T.users v.db) ≡ some u
  users_kept r id u = Grown-keeps id u (Served-Grown r)

  -- A call of any handler that is no `remove` of this document with an accepted token of its owner
  -- leaves the document as it was, whether the call succeeds, fails, or throws. The two tables are
  -- taken to be changed by the statements as PostgreSQL documents.
  pub documents_kept :
      (h : Handler) (c : Call) (w : World R D) (id : ℤ) (d : Stored)
      → ¬ RemovesOwn h c w id d
      → with_id id (U.documents w.db) ≡ some d
      → with_id id (U.documents (serve O J E X S R D secret_key signer server_cert h c w).1.db)
        ≡ some d
  documents_kept h c w = (serve-Safe h c w).kept
