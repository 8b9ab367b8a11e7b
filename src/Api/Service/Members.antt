-- ===== src/Api/Service/Members.antt =====
-- What becomes of an account while the service goes on answering calls.
use pqc_api.External.Openssl.{Openssl}
use pqc_api.External.Evp.{Evp}
use pqc_api.External.Json.{Json}
use pqc_api.External.Redis.{Redis}
use pqc_api.External.Postgres.{Postgres}
use pqc_api.External.Sodium.{Sodium}
use pqc_api.External.X509.{X509}
use pqc_api.Crypto.Signer.{Signer}
use pqc_api.Pki.Certificate.{Certificate}
use pqc_api.Auth.World.{World}
