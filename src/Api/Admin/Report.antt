-- ===== src/Api/Admin/Report.antt =====
-- What the admin's health report of src/api/Controllers.cpp says, field by field.
use pqc_api.Prelude.{ℕ, ◌/◌, ◌≡◌, true, false, none, some, Bytes, text}
use pqc_api.Prelude.Int.{ℤ, pos, pos_part, neg_part, ◌-ℤ◌, ◌≤ℤ◌}
use pqc_api.External.Openssl.{Openssl}
use pqc_api.External.Json.{Json, Doc, Fields, obj, str, num, field, end}
use pqc_api.External.Redis.{Redis}
use pqc_api.External.Postgres.{Postgres}
use pqc_api.External.X509.{X509}
use pqc_api.Pki.Certificate.{Certificate}
use pqc_api.Auth.World.{World}
use pqc_api.Api.Admin.{health_doc, health_code, tls_status, worst}

-- The days that are wholly within the seconds, of a time ahead and of one that is past.
pub record WholeDays (seconds days : ℤ) : Type 0 where
  pub ahead : pos_part days ≡ pos_part seconds / 86400
  pub past : neg_part days ≡ neg_part seconds / 86400

module _ (X : X509) (now : ℤ) where
  -- What the report says of a certificate: a status, the code of the answer, and the entry `tls`.
  pub data Reported : Certificate X → Bytes → ℕ → Fields → Type 0 where
    missing : Reported none (text "DOWN") 503 (
        field (text "detail") (str (text "server certificate invalid or expired")) (
          field
            (text "status")
            (str (text "DOWN"))
            (field (text "version") (str (text "1.3")) end)))
    expired :
        (c : X.Cert)
        → X.not_after_passed c now ≡ true
        → Reported (some c) (text "DOWN") 503 (
            field (text "detail") (str (text "server certificate invalid or expired")) (
              field
                (text "status")
                (str (text "DOWN"))
                (field (text "version") (str (text "1.3")) end)))
    expires_soon :
        (c : X.Cert) (days : ℤ)
        → X.not_after_passed c now ≡ false
        → (X.not_after_mktime c -ℤ now) ≤ℤ pos 604800
        → WholeDays (X.not_after_mktime c -ℤ now) days
        → Reported (some c) (text "DEGRADED") 200 (
            field (text "detail") (str (text "certificate expires soon")) (
              field (text "days_until_expiry") (num days) (
                field
                  (text "status")
                  (str (text "DEGRADED"))
                  (field (text "version") (str (text "1.3")) end))))
    up :
        (c : X.Cert) (days : ℤ)
        → X.not_after_passed c now ≡ false
        → ¬ ((X.not_after_mktime c -ℤ now) ≤ℤ pos 604800)
        → WholeDays (X.not_after_mktime c -ℤ now) days
        → Reported (some c) (text "UP") 200 (
            field (text "days_until_expiry") (num days) (
              field
                (text "status")
                (str (text "UP"))
                (field (text "version") (str (text "1.3")) end)))

  -- The report as JSON; the time is that of the request.
  abbrev pub report : Bytes → Fields → Doc
  report status tls = obj (
      field (text "status") (str status) (
        field (text "components")
          (obj (
            field (text "api_server") (obj (field (text "status") (str (text "UP")) end))
              (field (text "tls") (obj tls) end)))
          (field (text "timestamp") (str (X.iso_8601 now)) end)))

  abbrev Written : Certificate X → Bytes → ℕ → Fields → Type 0
  Written cert status code tls =
      (health_doc X cert now ≡ report status tls)
      × (health_code (worst (tls_status X cert now)) ≡ code)
