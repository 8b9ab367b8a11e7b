-- ===== src/Api/Admin/Access.antt =====
-- Who passes `requireAdmin`.
use pqc_api.Prelude.{
  ◌≡◌, ◌↔◌, refl, true, Option, none, some, inl, inr, drop, Bytes, text, Bool-cases, Option-cases,
}
use pqc_api.Prelude.Int.{ℤ, pos, eq_ℤ, eq_ℤ_iff}
use pqc_api.Std.Outcome.{returns, Outcome-cases}
use pqc_api.Std.Strings.{starts_with}
use pqc_api.Std.Decimal.{stoi}
use pqc_api.External.Openssl.{Openssl}
use pqc_api.External.Json.{Json}
use pqc_api.External.Redis.{Redis, RedisLaws}
use pqc_api.External.Postgres.{Postgres}
use pqc_api.Persistence.Users.{User}
use pqc_api.Persistence.Users.Table.{UserTable, with_id, find_by_id_lem}
use pqc_api.Auth.World.{World}
use pqc_api.Api.Http.{Request, extract_user_id}
use pqc_api.Api.Http.Guard.{verify_token-state}
use pqc_api.Api.Admin.{Gate, admin, role_gate, gate_for, require_admin}

module _ (O : Openssl) (J : Json) (R : Redis) (D : Postgres) (secret_key : Bytes) (L : RedisLaws R)
    (T : UserTable D) (now : ℤ) (req : Request) (w : World R D) where
  -- A valid token of a user whose row has the role 1 now.
  pub record IsAdmin (id : ℤ) : Type 0 where
    pub user_id : Bytes
    pub number : ℤ
    pub user : User
    pub accepted : (extract_user_id O J R secret_key now req w.redis).0 ≡ some user_id
    pub reads : stoi user_id ≡ returns number
    pub found : with_id number (T.users w.db) ≡ some user
    pub role : user.role ≡ pos 1
    pub same : user.id ≡ id

  require_admin_lem :
      require_admin O J R D secret_key now req w
      ≡ gate_for O J R D secret_key (extract_user_id O J R secret_key now req w.redis).0 w
  unfolding require_admin extract_user_id
  require_admin_lem = elim (Bool-cases (starts_with (text "Bearer ") req.authorization)) [
    | inl bearer ↦
        rw (bearer, verify_token-state O J R secret_key L now (drop 7 req.authorization) w.redis)
          refl
    | inr other ↦ rw other refl
  ]

  module _ (up : T.is_up w.db ≡ true) where
    gate_for_lem :
        (user_id : Bytes) (number : ℤ)
        → stoi user_id ≡ returns number
        → gate_for O J R D secret_key (some user_id) w
          ≡ (returns (role_gate (with_id number (T.users w.db))), w)
    gate_for_lem user_id number reads = rw (reads, find_by_id_lem D T w.db number up) refl

    role_gate-admin :
        (found : Option User) (id : ℤ)
        → role_gate found ≡ admin id
        → (user : User) × (found ≡ some user) × (user.role ≡ pos 1) × (user.id ≡ id)
    role_gate-admin none id e = cc
    role_gate-admin (some user) id e = elim (Bool-cases (eq_ℤ user.role (pos 1))) [
      | inl is_admin ↦
          let same = rw is_admin at e in (user, refl, (eq_ℤ_iff user.role (pos 1)).0 is_admin, cc)
      | inr other ↦ let wrong = rw other at e in cc
    ]

    gate_of : {g h : Gate} → returns g ≡ returns h → g ≡ h
    gate_of e = cc

    -- While the database can be reached: `requireAdmin` returns an id exactly for a request with a
    -- token that is accepted, whose user id reads as a number, and whose row under that number has
    -- the role 1 and that id.
    pub require_admin_iff :
        (id : ℤ)
        → ((require_admin O J R D secret_key now req w).0 ≡ returns (admin id)) ↔ IsAdmin id
    require_admin_iff id = (
      λ e. elim (Option-cases (extract_user_id O J R secret_key now req w.redis).0) [
        | inl unknown ↦ let wrong = rw (require_admin_lem, unknown) at e in cc
        | inr (user_id, accepted) ↦ elim (Outcome-cases (stoi user_id)) [
          | inl (number, reads) ↦
              let passed =
                rw (require_admin_lem, accepted, gate_for_lem user_id number reads) at e in
              let (user, found, role, same) = role_gate-admin _ id (gate_of passed) in
              record {
                user_id = user_id;
                number = number;
                user = user;
                accepted = accepted;
                reads = reads;
                found = found;
                role = role;
                same = same;
              }
          | inr (x, thrown) ↦ let wrong = rw (require_admin_lem, accepted, thrown) at e in cc
        ]
      ],
      λ a.
          rw
            (
              require_admin_lem,
              a.accepted,
              gate_for_lem a.user_id a.number a.reads,
              a.found,
              a.role,
              a.same,
            )
            refl,
    )
