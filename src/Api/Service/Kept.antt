-- ===== src/Api/Service/Kept.antt =====
-- What a computation of the handlers may keep: an interface with a rule for each way in which the
-- handlers are composed, and one for each operation of the repositories and of the token check.
use pqc_api.Prelude.{Bool, Bytes, if◌then◌else◌}
use pqc_api.Prelude.Int.{ℤ}
use pqc_api.Std.Outcome.{Outcome}
use pqc_api.Std.Exec.{Exec, lift, ◌>>=◌}
use pqc_api.External.Openssl.{Openssl}
use pqc_api.External.Json.{Json}
use pqc_api.External.Redis.{Redis}
use pqc_api.External.Postgres.{Postgres}
use pqc_api.Persistence.Users as Users
use pqc_api.Persistence.Documents as Documents
use pqc_api.Auth.World.{World, on_redis, on_db, on_db_caught}
use pqc_api.Auth.Manager.{verify_token}
use pqc_api.Api.Http.{Request, catch_json, extract_user_id}

pub record Kept (O : Openssl) (J : Json) (R : Redis) (D : Postgres) (secret_key : Bytes)
    : Type 1 where
  pub Keeps : {A : Type 0} → Exec (World R D) A → Type 0
  pub lifts : {A : Type 0} (r : Outcome A) → Keeps (lift r)
  pub binds :
      {A B : Type 0} (m : Exec (World R D) A) (f : A → Exec (World R D) B)
      → Keeps m
      → ((a : A) → Keeps (f a))
      → Keeps (m >>= f)
  pub ifs :
      {A : Type 0} (b : Bool) (m n : Exec (World R D) A)
      → Keeps m
      → Keeps n
      → Keeps (if b then m else n)
  pub catches :
      {A : Type 0} (m handler : Exec (World R D) A)
      → Keeps m
      → Keeps handler
      → Keeps (catch_json m handler)
  pub user_by_id : (id : ℤ) → Keeps (on_db R D (Users.find_by_id D id))
  pub user_by_name : (name : Bytes) → Keeps (on_db R D (Users.find_by_username D name))
  pub user_saved : (name hash : Bytes) → Keeps (on_db_caught R D (Users.save D name hash))
  pub document_by_id : (id : ℤ) → Keeps (on_db R D (Documents.find_by_id D id))
  pub documents_by_user : (user_id : ℤ) → Keeps (on_db R D (Documents.find_by_user_id D user_id))
  pub pdf_by_id : (id : ℤ) → Keeps (on_db R D (Documents.get_pdf_data D id))
  pub ownership : (id user_id : ℤ) → Keeps (on_db R D (Documents.owned_by D id user_id))
  pub document_saved :
      (user_id : ℤ) (filename pdf_b64 signature_b64 sha256_hash : Bytes)
      → Keeps
          (on_db_caught R D (Documents.save D user_id filename pdf_b64 signature_b64 sha256_hash))
  pub token_read :
      (now : ℤ) (req : Request) → Keeps (on_redis R D (extract_user_id O J R secret_key now req))
  pub token_verified :
      (now : ℤ) (token : Bytes) → Keeps (on_redis R D (verify_token O J R secret_key now token))
