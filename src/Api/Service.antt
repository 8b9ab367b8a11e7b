-- ===== src/Api/Service.antt =====
-- The five controllers together: the routes of include/api/Controllers.h, and the call of the
-- handler that a route names.
mod Kept
mod Rules
mod Calls
mod DocumentCalls
pub mod Safety
pub mod Protected
pub mod Lifetime
pub mod Members
pub mod Tokens
use pqc_api.Prelude.{List, [], ◌∷◌, ◌++◌, Bytes, text}
use pqc_api.Prelude.Int.{ℤ}
use pqc_api.Std.Exec.{Exec}
use pqc_api.External.Openssl.{Openssl}
use pqc_api.External.Evp.{Evp}
use pqc_api.External.Json.{Json}
use pqc_api.External.Redis.{Redis}
use pqc_api.External.Postgres.{Postgres}
use pqc_api.External.Sodium.{Sodium}
use pqc_api.External.X509.{X509}
use pqc_api.Crypto.Signer.{Signer}
use pqc_api.Pki.Certificate.{Certificate}
use pqc_api.Auth.World.{World}
use pqc_api.Api.Http.{Request, Response}
use pqc_api.Api.Accounts as Accounts
use pqc_api.Api.Admin as Admin
use pqc_api.Api.Documents as Documents
use pqc_api.Api.Documents.Submitted as Submitted

pub data Verb : Type 0 where
  get post delete : Verb

pub data Handler : Type 0 where
  register_user login get_profile logout check health sign list download verify remove : Handler
  public_key verify_external : Handler

-- One `ADD_METHOD_TO`.
pub record Route : Type 0 where
  pub handler : Handler
  pub path : Bytes
  pub verb : Verb

abbrev pub route : Handler → Bytes → Verb → Route
route handler path verb = record { handler = handler; path = path; verb = verb }

-- The METHOD_LIST of each controller.
abbrev pub auth_routes : List Route
auth_routes =
    route register_user (text "/api/auth/register") post
    ∷ route login (text "/api/auth/login") post
    ∷ []

abbrev pub user_routes : List Route
user_routes =
    route get_profile (text "/api/users/me") get ∷ route logout (text "/api/users/logout") post ∷ []

abbrev pub health_routes : List Route
health_routes = route check (text "/health") get ∷ []

abbrev pub admin_routes : List Route
admin_routes = route health (text "/api/admin/health") get ∷ []

abbrev pub document_routes : List Route
document_routes =
    route sign (text "/api/documents/sign") post
    ∷ route list (text "/api/documents") get
    ∷ route download (text "/api/documents/{id}/download") get
    ∷ route verify (text "/api/documents/{id}/verify") post
    ∷ route remove (text "/api/documents/{id}") delete
    ∷ route public_key (text "/api/documents/public-key") get
    ∷ route verify_external (text "/api/documents/verify") post
    ∷ []

-- The controllers in the order in which `main` registers them.
abbrev pub routes : List Route
routes = auth_routes ++ user_routes ++ health_routes ++ admin_routes ++ document_routes

-- A request and what it meets: the time, the bytes that libsodium draws, and the `{id}` of the path.
pub record Call : Type 0 where
  pub request : Request
  pub now : ℤ
  pub salt : Bytes
  pub random : Bytes
  pub id : ℤ

module _ (O : Openssl) (J : Json) (E : Evp) (X : X509) (S : Sodium) (R : Redis) (D : Postgres)
    (secret_key : Bytes) (signer : Signer E) (server_cert : Certificate X) where
  -- The handler's answer; the members of the controllers are those that `main` passes.
  unfoldable pub serve : Handler → Call → Exec (World R D) Response
  serve register_user c = Accounts.register_user O J R D secret_key S c.salt c.request
  serve login c = Accounts.login O J R D secret_key S c.now c.random c.request
  serve get_profile c = Accounts.get_profile O J R D secret_key c.now c.request
  serve logout c = Accounts.logout O J R D secret_key c.now c.request
  serve check c = Accounts.check O J R D secret_key c.request
  serve health c = Admin.health O J R D secret_key X server_cert c.now c.request
  serve sign c = Documents.sign O J E signer R D secret_key c.now c.request
  serve list c = Documents.list O J E signer R D secret_key c.now c.request
  serve download c = Documents.download O J E signer R D secret_key c.now c.request c.id
  serve verify c = Documents.verify O J E signer R D secret_key c.now c.request c.id
  serve remove c = Documents.remove O J E signer R D secret_key c.now c.request c.id
  serve public_key c = Documents.public_key O J E signer R D secret_key c.request
  serve verify_external c = Submitted.verify_external O J E signer R D c.request
