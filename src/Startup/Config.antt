-- ===== src/Startup/Config.antt =====
-- What `main` of src/main.cpp starts the server with, and the constructors that it calls.
use pqc_api.Prelude.{
  ℕ, Bool, true, false, Option, none, some, List, [], ◌∷◌, if◌then◌else◌, Bytes, text, str_eq,
}
use pqc_api.Prelude.Int.{ℤ, pos, ltb_ℤ}
use pqc_api.Std.Outcome.{Outcome, returns, throws, runtime_error}
use pqc_api.External.Host.{Host}
use pqc_api.External.Evp.{Evp}
use pqc_api.External.X509.{X509}
use pqc_api.Persistence.RedisClient.{Context}
use pqc_api.Crypto.Signer.{Signer}
use pqc_api.Tls.OqsProvider.{OqsProvider}
use pqc_api.Pki.Certificate.{Certificate}
use pqc_api.Pki.Ocsp.{CertStatus, revoked}

-- The arguments of `addListener`, but for the address "0.0.0.0".
pub record Listener : Type 0 where
  pub port : ℤ
  pub use_ssl : Bool
  pub cert_file : Bytes
  pub key_file : Bytes
  pub use_old_tls : Bool
  pub ssl_conf_cmds : List (Bytes × Bytes)

abbrev pub ssl_conf_cmds : List (Bytes × Bytes)
ssl_conf_cmds =
    (text "Groups", text "X25519MLKEM768:x25519")
    ∷ (text "MinProtocol", text "TLSv1.3")
    ∷ (text "MaxProtocol", text "TLSv1.3")
    ∷ (text "CipherString", text "DEFAULT:@SECLEVEL=0")
    ∷ []

-- What the pre-sending advice adds to every response.
abbrev pub security_headers : List (Bytes × Bytes)
security_headers =
    (
      text "Content-Security-Policy",
      text
          "default-src 'self'; script-src 'self'; style-src 'self' 'unsafe-inline'; img-src 'self'; connect-src 'self'; object-src 'none'; base-uri 'none'; form-action 'self'; frame-ancestors 'none'",
    )
    ∷ (text "X-Content-Type-Options", text "nosniff")
    ∷ (text "X-Frame-Options", text "DENY")
    ∷ (text "Referrer-Policy", text "no-referrer")
    ∷ []

-- The key-generation mode's argument test, on the arguments behind the program's name.
unfoldable pub key_path_argument : List Bytes → Option Bytes
key_path_argument (mode ∷ path ∷ []) =
    if str_eq mode (text "--generate-mldsa-key") then some path else none
key_path_argument arguments = none

-- `cert_status == CertStatus::Revoked`
abbrev pub is_revoked : CertStatus → Bool
is_revoked revoked = true
is_revoked status = false

-- `env`
unfoldable pub env : Host → Bytes → Bytes → Bytes
env H name fallback = elim (H.getenv name) [ none ↦ fallback | some val ↦ val ]

-- `DilithiumSigner::DilithiumSigner`
unfoldable pub signer_created : OqsProvider → Outcome (Unit {0})
signer_created provider =
    if provider.loaded
    then returns tt
    else throws (runtime_error (text "OQSProvider must be loaded before DilithiumSigner"))

-- `OCSPClient::OCSPClient`
unfoldable pub ocsp_created : Host → Outcome (Unit {0})
ocsp_created H =
    if H.curl_init
    then returns tt
    else throws (runtime_error (text "[OCSPClient] Failed to init curl handle"))

-- `AuthManager::AuthManager`
unfoldable pub auth_created : Host → Outcome (Unit {0})
auth_created H =
    if ltb_ℤ H.sodium_init (pos 0)
    then throws (runtime_error (text "[AuthManager] libsodium init failed"))
    else returns tt

module _ (X : X509) (E : Evp) where
  -- What the server runs with.
  pub record Server : Type 0 where
    pub listener : Listener
    pub headers : List (Bytes × Bytes)
    pub document_root : Bytes
    pub thread_num : ℕ
    pub client_max_body_size : ℕ
    pub secret_key : Bytes
    pub signer : Signer E
    pub server_cert : Certificate X
    pub database : Option Bool
    pub sessions : Context

  -- `main` returns, or the event loop runs.
  pub data Exit : Type 0 where
    exits : ℕ → Exit
    runs : Server → Exit
