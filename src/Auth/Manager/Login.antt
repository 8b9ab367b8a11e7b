-- ===== src/Auth/Manager/Login.antt =====
-- `login`: what it refuses, and how long the token that it returns is accepted.
use pqc_api.Prelude.{
  ℕ, suc, ◌≡◌, ◌⊎◌, inl, inr, refl, ap, ◌∙◌, Bool, true, false, Option, none, some, [], arith, ltb,
  if◌then◌else◌, All, All-mono, Lacks, Bytes, IsByte, text, str_eq_refl, Bool-cases,
}
use pqc_api.Prelude.Int.{ℤ, ◌+ℤ◌, ltb_ℤ}
use pqc_api.Std.Outcome.{Outcome, returns}
use pqc_api.Std.Strings.{c_str_of_Lacks}
use pqc_api.Std.Decimal.{to_string}
use pqc_api.Std.Decimal.RoundTrip.{to_string-IsPlain}
use pqc_api.External.Openssl.{Openssl, Base64Laws, MacLaws}
use pqc_api.External.Json.{Json, JsonLaws, IsAscii}
use pqc_api.External.Redis.{Redis, RedisLaws}
use pqc_api.External.Postgres.{Postgres}
use pqc_api.External.Sodium.{Sodium}
use pqc_api.Persistence.Sessions.{store_key, default_ttl_seconds}
use pqc_api.Persistence.Sessions.Laws.{get_key-elapse-store_key, store_key_down}
use pqc_api.Persistence.Users.{User}
use pqc_api.Persistence.Users.Table.{UserTable, named, find_by_username_lem}
use pqc_api.Auth.World.{World}
use pqc_api.Auth.SessionId.{generate_session_id, to_hex-IsHex}
use pqc_api.Auth.Token.Build.{token_ttl_seconds, build_token}
use pqc_api.Auth.Token.Parse.{parse_token}
use pqc_api.Auth.Token.RoundTrip.{parse_token-build_token}
use pqc_api.Auth.Manager.{
  AuthResult, owner_check, failure, verify_password, open_session, login, verify_token,
}
use pqc_api.Auth.Manager.Verify.{verify_token_parsed, verify_token_refused, verify_token_down}

generate_session_id-IsAscii :
    (random : Bytes) → All IsByte random → IsAscii (generate_session_id random)
unfolding generate_session_id
generate_session_id-IsAscii random b = All-mono (λ c h. omega arith) _ (to_hex-IsHex random b)

generate_session_id-Lacks :
    (random : Bytes) → All IsByte random → Lacks 0 (generate_session_id random)
unfolding generate_session_id
generate_session_id-Lacks random b = All-mono (λ c h. omega arith) _ (to_hex-IsHex random b)

to_string-IsAscii : (z : ℤ) → IsAscii (to_string z)
to_string-IsAscii z = All-mono (λ c h. omega arith) _ (to_string-IsPlain z)

to_string-Lacks : (z : ℤ) → Lacks 0 (to_string z)
to_string-Lacks z = All-mono (λ c h. omega arith) _ (to_string-IsPlain z)

abbrev pub welcome : User → Bytes → AuthResult
welcome user token = record {
  success = true;
  user_id = to_string user.id;
  token = token;
  error = [];
}

module _ (O : Openssl) (J : Json) (R : Redis) (D : Postgres) (S : Sodium) (secret_key : Bytes)
    (T : UserTable D) (w : World R D) (up : T.is_up w.db ≡ true) where
  -- While the database can be reached and for a name that it accepts: an unknown name and a wrong
  -- password are refused with one and the same answer, and nothing changes.
  pub login_refused :
      (now : ℤ) (random username password : Bytes)
      → T.accepts username ≡ true
      → ((named username (T.users w.db) ≡ none)
          ⊎ ((user : User) × (named username (T.users w.db) ≡ some user)
              × (verify_password S password user.password_hash ≡ false)))
      → login O J R D secret_key S now random username password w
        ≡ (returns (failure (text "Invalid credentials")), w)
  unfolding login
  login_refused now random username password clean (inl unknown) =
      rw (find_by_username_lem D T w.db username clean up, unknown)
  login_refused now random username password clean (inr (user, known, wrong)) =
      rw (find_by_username_lem D T w.db username clean up, known, wrong)

  login_opens :
      (now : ℤ) (random username password : Bytes) (user : User)
      → T.accepts username ≡ true
      → named username (T.users w.db) ≡ some user
      → verify_password S password user.password_hash ≡ true
      → login O J R D secret_key S now random username password w
        ≡ open_session O J R D secret_key now random user w
  unfolding login
  login_opens now random username password user clean known right =
      rw (find_by_username_lem D T w.db username clean up, known, right)

module _ (O : Openssl) (J : Json) (R : Redis) (D : Postgres) (secret_key : Bytes) where
  open_session_returns :
      (now : ℤ) (random : Bytes) (user : User) (w : World R D) {token : Bytes}
      → build_token O J secret_key now (to_string user.id) (generate_session_id random)
        ≡ returns token
      → open_session O J R D secret_key now random user w ≡ (
        returns (welcome user token),
        record w {
          redis =
              (store_key R default_ttl_seconds
                (generate_session_id random)
                (to_string user.id)
                w.redis).1;
        },
      )
  unfolding open_session
  open_session_returns now random user w built = rw built

module _ (O : Openssl) (J : Json) (R : Redis) (secret_key : Bytes) where
  owner_check_stored :
      (user_id : Bytes) (b : Bool)
      → owner_check O J R secret_key user_id (if b then some user_id else none)
        ≡ (if b then some user_id else none)
  owner_check_stored user_id true = rw str_eq_refl
  owner_check_stored user_id false = refl

  -- A token of a session that was just stored is accepted for the session's time to live.
  verify_token-store_key :
      (L : RedisLaws R) (s : R.State) (later : ℤ) (t n : ℕ) (token user_id session_id : Bytes)
      → L.is_up s ≡ true
      → Lacks 0 user_id
      → Lacks 0 session_id
      → parse_token O J secret_key later token ≡ some (user_id, session_id)
      → (verify_token O J R secret_key later token
          (L.elapse n (store_key R (suc t) session_id user_id s).1)).0
        ≡ (if ltb n (suc t) then some user_id else none)
  verify_token-store_key L s later t n token user_id session_id up hu hs parsed = rw (
    verify_token_parsed O J R secret_key later token _ parsed,
    get_key-elapse-store_key R L s session_id user_id t n up hs,
    c_str_of_Lacks user_id hu,
    owner_check_stored,
  )

module _ (O : Openssl) (J : Json) (R : Redis) (D : Postgres) (S : Sodium) (secret_key : Bytes)
    (B : Base64Laws O) (M : MacLaws O) (JL : JsonLaws J) (L : RedisLaws R) (T : UserTable D)
    (w : World R D) (db_up : T.is_up w.db ≡ true) where
  module _ (now : ℤ) (random username password : Bytes) (b : All IsByte random) (user : User)
      (clean : T.accepts username ≡ true) (known : named username (T.users w.db) ≡ some user)
      (right : verify_password S password user.password_hash ≡ true) where
    -- While Redis and the database can be reached, a login with the right password of a user, under
    -- a name that the database accepts and with random bytes below 256, returns a token. `n`
    -- seconds of the store's clock later and at the time `later`, the token is accepted as that
    -- user's if it has not expired and `n` is below the sessions' time to live; otherwise it is
    -- refused. Base64, the MAC, flat JSON objects, Redis and the users table are taken to behave as
    -- documented.
    pub verify_token-login :
        L.is_up w.redis ≡ true
        → (token : Bytes) × ((login O J R D secret_key S now random username password w).0
            ≡ returns (welcome user token))
          × ((later : ℤ) (n : ℕ)
              → (verify_token O J R secret_key later token (
                  L.elapse n (login O J R D secret_key S now random username password w).1.redis)).0
                ≡ (if ltb_ℤ (now +ℤ token_ttl_seconds) later
                    then none
                    else if ltb n default_ttl_seconds
                    then some (to_string user.id)
                    else none))
    verify_token-login redis_up =
        let session_id = generate_session_id random in
        let user_id = to_string user.id in
        let (token, built, reads) =
          parse_token-build_token O J secret_key B M JL now user_id session_id
            (to_string-IsAscii user.id) (generate_session_id-IsAscii random b) in
        let opened =
          login_opens O J R D S secret_key T w db_up now random username password user clean known
            right
          ∙ open_session_returns O J R D secret_key now random user w built in
        (
          token,
          ap (λ (r : Outcome AuthResult × World R D). r.0) opened,
          λ later n. elim (Bool-cases (ltb_ℤ (now +ℤ token_ttl_seconds) later)) [
            | inl expired ↦
                rw (opened, expired)
                  (ap (λ (r : Option Bytes × R.State). r.0)
                    (verify_token_refused O J R secret_key later token _
                      (reads later ∙ rw expired)))
            | inr in_time ↦
                rw (opened, in_time)
                  (verify_token-store_key O J R secret_key L w.redis later 3599 n token user_id
                    session_id redis_up (to_string-Lacks user.id)
                    (generate_session_id-Lacks random b) (reads later ∙ rw in_time))
          ],
        )

    -- While the database can be reached and Redis cannot, a login with the right password of a
    -- user, under a name that the database accepts and with random bytes below 256, still returns a
    -- token. It stores no session, and the token is accepted at no time in that state of the store.
    pub verify_token-login_redis_down :
        L.is_up w.redis ≡ false
        → (token : Bytes) × ((login O J R D secret_key S now random username password w).0
            ≡ returns (welcome user token))
          × ((login O J R D secret_key S now random username password w).1 ≡ w)
          × ((later : ℤ) → (verify_token O J R secret_key later token w.redis).0 ≡ none)
    verify_token-login_redis_down redis_down =
        let session_id = generate_session_id random in
        let user_id = to_string user.id in
        let (token, built, reads) =
          parse_token-build_token O J secret_key B M JL now user_id session_id
            (to_string-IsAscii user.id) (generate_session_id-IsAscii random b) in
        let opened =
          login_opens O J R D S secret_key T w db_up now random username password user clean known
            right
          ∙ open_session_returns O J R D secret_key now random user w built in
        (
          token,
          ap (λ (r : Outcome AuthResult × World R D). r.0) opened,
          rw (opened, store_key_down R L w.redis redis_down),
          λ later. verify_token_down O J R secret_key L w.redis redis_down later token,
        )
