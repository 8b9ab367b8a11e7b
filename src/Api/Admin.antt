-- ===== src/Api/Admin.antt =====
-- `AdminController` of src/api/Controllers.cpp.
pub mod Access
pub mod Report
use pqc_api.Prelude.{
  ℕ, ◌/◌, ◌==◌, ltb, Bool, true, false, not, Option, none, some, [], if◌then◌else◌, drop, Bytes,
  text, str_eq,
}
use pqc_api.Prelude.Int.{ℤ, pos, negsuc, pos_part, neg_part, ◌-ℤ◌, leb_ℤ, eq_ℤ, sub_ℕ}
use pqc_api.Std.Outcome.{Outcome, returns}
use pqc_api.Std.Exec.{Exec, pure, lift, ◌>>=◌}
use pqc_api.Std.Strings.{starts_with}
use pqc_api.Std.Decimal.{stoi}
use pqc_api.External.Openssl.{Openssl}
use pqc_api.External.Json.{Json, Doc, str, num, obj, Fields, end, field}
use pqc_api.External.Redis.{Redis}
use pqc_api.External.Postgres.{Postgres}
use pqc_api.External.X509.{X509}
use pqc_api.Persistence.Users.{User, find_by_id}
use pqc_api.Pki.Certificate.{Certificate, is_valid, get_not_after}
use pqc_api.Auth.World.{World, on_redis, on_db}
use pqc_api.Auth.Manager.{verify_token}
use pqc_api.Api.Http.{Request, Response, json_response, error_response}

-- What `requireAdmin` returns: an id, or the status that it sets.
pub data Gate : Type 0 where
  admin : ℤ → Gate
  refused : ℕ → Gate

abbrev pub role_gate : Option User → Gate
role_gate none = refused 403
role_gate (some user) = if eq_ℤ user.role (pos 1) then admin user.id else refused 403

-- The severity of a component's state.
unfoldable pub rank : Bytes → ℕ
rank s = if str_eq s (text "DOWN") then 2 else if str_eq s (text "DEGRADED") then 1 else 0

-- `static_cast<int>(seconds / 86400.0)`, which rounds toward zero.
unfoldable pub whole_days : ℤ → ℤ
whole_days seconds = sub_ℕ (pos_part seconds / 86400) (neg_part seconds / 86400)

module _ (X : X509) where
  -- `days_left <= 7.0`
  abbrev pub expires_soon : Certificate X → ℤ → Bool
  expires_soon cert now = leb_ℤ (get_not_after X cert -ℤ now) (pos 604800)

  unfoldable pub tls_status : Certificate X → ℤ → Bytes
  tls_status cert now =
      if not (is_valid X cert now)
      then text "DOWN"
      else if expires_soon cert now
      then text "DEGRADED"
      else text "UP"

  abbrev pub tls_end : Bytes → Fields
  tls_end status =
      field (text "status") (str status) (field (text "version") (str (text "1.3")) end)

  unfoldable pub tls_component : Certificate X → ℤ → Fields
  tls_component cert now =
      let days = num (whole_days (get_not_after X cert -ℤ now)) in
      if not (is_valid X cert now)
      then field (text "detail") (str (text "server certificate invalid or expired"))
          (tls_end (tls_status cert now))
      else if expires_soon cert now
      then field (text "detail") (str (text "certificate expires soon"))
          (field (text "days_until_expiry") days (tls_end (tls_status cert now)))
      else field (text "days_until_expiry") days (tls_end (tls_status cert now))

-- The worse of the two components' ranks; the API server is always up.
unfoldable pub worst : Bytes → ℕ
worst tls = let api = rank (text "UP") in if ltb api (rank tls) then rank tls else api

abbrev pub overall : ℕ → Bytes
overall n = if n == 2 then text "DOWN" else if n == 1 then text "DEGRADED" else text "UP"

abbrev pub health_code : ℕ → ℕ
health_code n = if n == 2 then 503 else 200

module _ (X : X509) where
  abbrev pub health_doc : Certificate X → ℤ → Doc
  health_doc cert now = obj (
      field (text "status") (str (overall (worst (tls_status X cert now)))) (
        field (text "components")
          (obj (
            field (text "api_server") (obj (field (text "status") (str (text "UP")) end))
              (field (text "tls") (obj (tls_component X cert now)) end)))
          (field (text "timestamp") (str (X.iso_8601 now)) end)))

module _ (O : Openssl) (J : Json) (R : Redis) (D : Postgres) (secret_key : Bytes) where
  abbrev pub gate_for : Option Bytes → Exec (World R D) Gate
  gate_for none = pure (refused 401)
  gate_for (some user_id) = do
    id ← lift (stoi user_id)
    user ← on_db R D (find_by_id D id)
    pure (role_gate user)

  -- `AdminController::requireAdmin`
  unfoldable pub require_admin : ℤ → Request → Exec (World R D) Gate
  require_admin now req =
      let bearer =
        on_redis R D (verify_token O J R secret_key now (drop 7 req.authorization)) >>= gate_for in
      if starts_with (text "Bearer ") req.authorization then bearer else pure (refused 401)

  abbrev pub gate_message : ℕ → Bytes
  gate_message code = if code == 403 then text "Admin privileges required" else text "Unauthorized"

  abbrev pub health_for : (X : X509) → Certificate X → ℤ → Gate → Exec (World R D) Response
  health_for X cert now (refused code) = lift (error_response J (gate_message code) code)
  health_for X cert now (admin id) =
      lift (json_response J (health_doc X cert now) (health_code (worst (tls_status X cert now))))

  -- `AdminController::health`
  unfoldable pub health : (X : X509) → Certificate X → ℤ → Request → Exec (World R D) Response
  health X cert now req = require_admin now req >>= health_for X cert now
