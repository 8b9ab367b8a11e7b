-- ===== src/Api/Service/Calls.antt =====
-- What each handler keeps that works on accounts.
use pqc_api.Prelude.{
  Bool, true, none, some, Option, [], ◌||◌, is_empty, ltb, length, if◌then◌else◌, drop, Bytes, text,
}
use pqc_api.Prelude.Int.{ℤ}
use pqc_api.Std.Outcome.{Outcome, returns, json_error, or_throw}
use pqc_api.Std.Exec.{Exec, lift, ◌>>=◌}
use pqc_api.External.Openssl.{Openssl}
use pqc_api.External.Json.{Json}
use pqc_api.External.Redis.{Redis}
use pqc_api.External.Postgres.{Postgres}
use pqc_api.External.Sodium.{Sodium}
use pqc_api.External.X509.{X509}
use pqc_api.Persistence.Users as Users
use pqc_api.Persistence.Users.{User}
use pqc_api.Pki.Certificate.{Certificate}
use pqc_api.Auth.World.{World, on_redis, on_db, on_db_caught}
use pqc_api.Auth.Manager as Auth
use pqc_api.Auth.Manager.{AuthResult}
use pqc_api.Std.Strings.{starts_with}
use pqc_api.Std.Decimal.{to_string, stoi}
use pqc_api.Persistence.Sessions.{store_key, default_ttl_seconds}
use pqc_api.Auth.SessionId.{generate_session_id}
use pqc_api.Auth.Token.Build.{build_token}
use pqc_api.Api.Http.{Request, Response, error_response, extract_user_id, user_or, with_user}
use pqc_api.Api.Accounts as Accounts
use pqc_api.Api.Admin as Admin
use pqc_api.Api.Admin.{Gate, admin, refused}
use pqc_api.Api.Service.Kept.{Kept}

module _ (O : Openssl) (J : Json) (R : Redis) (D : Postgres) (secret_key : Bytes)
    (K : Kept O J R D secret_key) where
  open K use {
    Keeps, lifts, binds, ifs, catches, user_by_id, user_by_name, user_saved, token_read,
    token_verified,
  }

  -- A value that was computed, and then a handler.
  pub lift_binds :
      {A B : Type 0} (r : Outcome A) (f : A → Exec (World R D) B)
      → ((a : A) → Keeps (f a))
      → Keeps (lift r >>= f)
  lift_binds r f = binds (lift r) f (lifts r)

  -- Registration, whose second half may run in a later world than its first.
  pub create_user-Keeps :
      (S : Sodium) (salt username password : Bytes)
      → Keeps (Auth.create_user R D S salt username password)
  unfolding Auth.create_user
  create_user-Keeps S salt username password =
      let store = λ (hash : Bytes). on_db_caught R D (Users.save D username hash) in
      let answer = λ (done : Bool). lift (returns (Auth.saved R D username done)) in
      lift_binds (Auth.hash_password S salt password) (λ hash. store hash >>= answer)
        (λ hash. binds (store hash) answer (user_saved username hash) (λ done. lifts _))

  abbrev register_rest : Sodium → Bytes → Bytes → Bytes → Option User → Exec (World R D) AuthResult
  register_rest S salt username password none = Auth.create_user R D S salt username password
  register_rest S salt username password (some u) =
      lift (returns (Auth.failure (text "Username already exists")))

  register_rest-Keeps :
      (S : Sodium) (salt username password : Bytes) (found : Option User)
      → Keeps (register_rest S salt username password found)
  register_rest-Keeps S salt username password none = create_user-Keeps S salt username password
  register_rest-Keeps S salt username password (some u) = lifts _

  auth_register-Keeps :
      (S : Sodium) (salt username password : Bytes)
      → Keeps (Auth.register_user R D S salt username password)
  unfolding Auth.register_user
  auth_register-Keeps S salt username password =
      ifs (is_empty username || ltb (length password) 8) _ _
        (lifts (returns (Auth.failure (text "Username empty or password too short"))))
        (binds (on_db R D (Users.find_by_username D username))
          (register_rest S salt username password) (user_by_name username)
          (register_rest-Keeps S salt username password))

  read_credentials-Keeps :
      (body : Bytes) → Keeps (Accounts.read_credentials O J R D secret_key body)
  unfolding Accounts.read_credentials
  read_credentials-Keeps body = lift_binds (or_throw json_error (J.parse body)) _ (λ value.
      lift_binds (or_throw json_error (J.value value (text "username") [])) _ (λ username.
        lift_binds (or_throw json_error (J.value value (text "password") [])) _
          (λ password. lifts (returns (username, password)))))

  pub register_user-Keeps :
      (S : Sodium) (salt : Bytes) (req : Request)
      → Keeps (Accounts.register_user O J R D secret_key S salt req)
  unfolding Accounts.register_user
  register_user-Keeps S salt req =
      catches _ _
        (binds (Accounts.read_credentials O J R D secret_key req.body)
          (λ (c : Bytes × Bytes).
            Auth.register_user R D S salt c.0 c.1
            >>= Accounts.registration_answer O J R D secret_key c.0)
          (read_credentials-Keeps req.body)
          (λ c.
            binds (Auth.register_user R D S salt c.0 c.1)
              (Accounts.registration_answer O J R D secret_key c.0)
              (auth_register-Keeps S salt c.0 c.1)
              (λ result. ifs result.success _ _ (lifts _) (lifts _))))
        (lifts _)

  module _ (random : Bytes)
      (stored : (user_id : Bytes)
        → Keeps (
            on_redis R D
              (store_key R default_ttl_seconds (generate_session_id random) user_id))) where
    open_session-Keeps :
        (now : ℤ) (user : User) → Keeps (Auth.open_session O J R D secret_key now random user)
    unfolding Auth.open_session
    open_session-Keeps now user =
        lift_binds (build_token O J secret_key now (to_string user.id) (generate_session_id random))
          _
          (λ token.
            binds
              (on_redis R D
                (store_key R default_ttl_seconds (generate_session_id random) (to_string user.id)))
              _ (stored (to_string user.id))
              (λ stored. lifts (
                returns (record {
                  success = true;
                  user_id = to_string user.id;
                  token = token;
                  error = [];
                }))))

    abbrev login_rest : Sodium → ℤ → Bytes → Option User → Exec (World R D) AuthResult
    login_rest S now password none = lift (returns (Auth.failure (text "Invalid credentials")))
    login_rest S now password (some user) =
        if Auth.verify_password S password user.password_hash
        then Auth.open_session O J R D secret_key now random user
        else lift (returns (Auth.failure (text "Invalid credentials")))

    login_rest-Keeps :
        (S : Sodium) (now : ℤ) (password : Bytes) (found : Option User)
        → Keeps (login_rest S now password found)
    login_rest-Keeps S now password none = lifts _
    login_rest-Keeps S now password (some user) =
        ifs (Auth.verify_password S password user.password_hash) _ _ (open_session-Keeps now user)
          (lifts _)

    auth_login-Keeps :
        (S : Sodium) (now : ℤ) (username password : Bytes)
        → Keeps (Auth.login O J R D secret_key S now random username password)
    unfolding Auth.login
    auth_login-Keeps S now username password =
        binds (on_db R D (Users.find_by_username D username)) (login_rest S now password)
          (user_by_name username) (login_rest-Keeps S now password)

    pub login-Keeps :
        (S : Sodium) (now : ℤ) (req : Request)
        → Keeps (Accounts.login O J R D secret_key S now random req)
    unfolding Accounts.login
    login-Keeps S now req =
        catches _ _
          (binds (Accounts.read_credentials O J R D secret_key req.body)
            (λ (c : Bytes × Bytes).
              Auth.login O J R D secret_key S now random c.0 c.1
              >>= Accounts.session_answer O J R D secret_key)
            (read_credentials-Keeps req.body)
            (λ c.
              binds (Auth.login O J R D secret_key S now random c.0 c.1)
                (Accounts.session_answer O J R D secret_key) (auth_login-Keeps S now c.0 c.1)
                (λ result. ifs result.success _ _ (lifts _) (lifts _))))
          (lifts _)

  user_or-Keeps :
      (user_id : Option Bytes) (handler : Bytes → Exec (World R D) Response)
      → ((id : Bytes) → Keeps (handler id))
      → Keeps (
          user_or O J R D secret_key user_id
            (lift (error_response J (text "Unauthorized") 401))
            handler)
  user_or-Keeps none handler h = lifts _
  user_or-Keeps (some id) handler h = h id

  pub with_user-Keeps :
      (now : ℤ) (req : Request) (handler : Bytes → Exec (World R D) Response)
      → ((id : Bytes) → Keeps (handler id))
      → Keeps (with_user O J R D secret_key now req handler)
  unfolding with_user
  with_user-Keeps now req handler h =
      binds (on_redis R D (extract_user_id O J R secret_key now req)) _ (token_read now req)
        (λ user_id. user_or-Keeps user_id handler h)

  pub profile_for-Keeps :
      (user_id : Bytes) → Keeps (Accounts.profile_for O J R D secret_key user_id)
  unfolding Accounts.profile_for
  profile_for-Keeps user_id = lift_binds (stoi user_id) _ (λ id.
      binds (on_db R D (Users.find_by_id D id)) (Accounts.profile_answer O J R D secret_key)
        (user_by_id id) answer)
    where
      answer : (user : Option User) → Keeps (Accounts.profile_answer O J R D secret_key user)
      answer none = lifts _
      answer (some user) = lifts _

  pub get_profile-Keeps :
      (now : ℤ) (req : Request) → Keeps (Accounts.get_profile O J R D secret_key now req)
  unfolding Accounts.get_profile
  get_profile-Keeps now req = with_user-Keeps now req _ profile_for-Keeps

  pub logout-Keeps :
      (now : ℤ) (req : Request)
      → Keeps (on_redis R D (Auth.logout O J R secret_key now (drop 7 req.authorization)))
      → Keeps (Accounts.logout O J R D secret_key now req)
  unfolding Accounts.logout
  logout-Keeps now req ended =
      ifs (starts_with (text "Bearer ") req.authorization) _ _
        (binds (on_redis R D (Auth.logout O J R secret_key now (drop 7 req.authorization)))
          (Accounts.logout_answer O J R D secret_key) ended
          (λ done. ifs done _ _ (lifts _) (lifts _)))
        (lifts _)

  gate_for-Keeps : (user_id : Option Bytes) → Keeps (Admin.gate_for O J R D secret_key user_id)
  gate_for-Keeps none = lifts (returns (refused 401))
  gate_for-Keeps (some user_id) = lift_binds (stoi user_id) _ (λ id.
      binds (on_db R D (Users.find_by_id D id)) (λ user. lift (returns (Admin.role_gate user)))
        (user_by_id id) (λ user. lifts _))

  pub health-Keeps :
      (X : X509) (cert : Certificate X) (now : ℤ) (req : Request)
      → Keeps (Admin.health O J R D secret_key X cert now req)
  unfolding Admin.health Admin.require_admin
  health-Keeps X cert now req =
      binds (Admin.require_admin O J R D secret_key now req)
        (Admin.health_for O J R D secret_key X cert now)
        (ifs (starts_with (text "Bearer ") req.authorization) _ _
          (binds (on_redis R D (Auth.verify_token O J R secret_key now (drop 7 req.authorization)))
            (Admin.gate_for O J R D secret_key) (token_verified now (drop 7 req.authorization))
            gate_for-Keeps)
          (lifts (returns (refused 401))))
        answer
    where
      answer : (gate : Gate) → Keeps (Admin.health_for O J R D secret_key X cert now gate)
      answer (refused code) = lifts _
      answer (admin id) = lifts _
