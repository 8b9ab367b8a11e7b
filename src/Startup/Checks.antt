-- ===== src/Startup/Checks.antt =====
-- Which checks `main` has passed when the server runs, and that nothing else stops it.
use pqc_api.Prelude.{
  ℕ, ◌≡◌, ◌≢◌, ◌≤◌, refl, inl, inr, true, false, none, some, List, length, Bytes, text, str_eq,
  Option-cases,
}
use pqc_api.Std.Outcome.{returns}
use pqc_api.Std.Decimal.{stoi}
use pqc_api.External.Host.{Host}
use pqc_api.External.Files.{Files}
use pqc_api.External.Evp.{Evp}
use pqc_api.External.X509.{X509}
use pqc_api.External.Ocsp.{Ocsp}
use pqc_api.Crypto.Signer.{live, pointer_of}
use pqc_api.Tls.OqsProvider.{load}
use pqc_api.Pki.Certificate.{verify_signature}
use pqc_api.Pki.Ocsp.{revoked}
use pqc_api.Startup.Config.{ssl_conf_cmds, security_headers, key_path_argument, env, Server, runs}
use pqc_api.Startup.Main.{Process, ask_status, ca_read, server_read, main}
use pqc_api.Startup.Steps.{
  jwt_secret-some, require_runs, start_signer_runs, start_auth_runs, connect_stores_runs,
  check_certificates_runs, generate_key_ends,
}

module _ (H : Host) (X : X509) (C : Ocsp X) (E : Evp) (F : Files) where
  -- What holds of a server that runs.
  pub record Checked (now done : ℕ) (arguments : List Bytes) (p : Process X C F) (v : Server X E)
      : Type 0 where
    pub provider : (load H.provider p.provider).0 ≡ true
    pub server_mode : key_path_argument arguments ≡ none
    pub ca_loaded : (ca_read H X C E F).0 ≡ true
    pub server_loaded : (server_read H X C E F).0 ≡ true
    pub signed_by_ca : verify_signature X (server_read H X C E F).1 (ca_read H X C E F).1 ≡ true
    pub certificate : v.server_cert ≡ (server_read H X C E F).1
    pub not_revoked :
        (ask_status H X C E F now done
          (server_read H X C E F).1
          (ca_read H X C E F).1
          (record p { provider = (load H.provider p.provider).1 })).0
        ≢ returns revoked
    pub secret : H.getenv (text "JWT_SECRET") ≡ some v.secret_key
    pub secret_length : 32 ≤ length v.secret_key
    pub secret_chosen : str_eq v.secret_key (text "change-me-in-production") ≡ false
    pub key : E.Key
    pub signing :
        v.signer ≡ record { private_key = live key; public_key = pointer_of E (E.dup key) }
    pub port : stoi (env H (text "SERVER_PORT") (text "8443")) ≡ returns v.listener.port
    pub tls : (v.listener.use_ssl ≡ true) × (v.listener.ssl_conf_cmds ≡ ssl_conf_cmds)
    pub headers : v.headers ≡ security_headers

  module _ {v : Server X E} where
    -- If the server runs, then every check before it has passed: the provider is loaded, the two
    -- certificates are read and the server's is signed by the CA, the revocation check did not say
    -- revoked, and the secret of the environment has at least 32 bytes and is not the placeholder.
    -- The server uses that secret, that certificate, a signer with a live private key, the port of
    -- the environment, TLS with the TLS 1.3 commands, and the security headers.
    pub main_checks :
        (now done : ℕ) (arguments : List Bytes) (p : Process X C F)
        → (main H X C E F now done arguments p).0 ≡ returns (runs v)
        → Checked now done arguments p v
    unfolding main
    main_checks now done arguments p e =
        let (provider, e1) = require_runs H X C E F (load H.provider p.provider).0 _ _ e in
        elim (Option-cases (key_path_argument arguments)) [
          | inr (path, generating) ↦
              let e2 = rw generating at e1 in absurd (generate_key_ends H X C E F path _ e2)
          | inl serving ↦
              let (ca_loaded, server_loaded, signed_by_ca, not_revoked, (p1, e2)) =
                check_certificates_runs H X C E F now done _ (rw serving at e1) in
              let (db, ses, e3) = connect_stores_runs H X C E F _ p1 e2 in
              let (secret_key, taken, e4) = start_auth_runs H X C E F _ db ses p1 e3 in
              let (key, port, parsed, same) =
                start_signer_runs H X C E F secret_key _ db ses p1 e4 in
              let (secret, secret_length, secret_chosen) = jwt_secret-some _ secret_key taken in
              rw same (record {
                provider = provider;
                server_mode = serving;
                ca_loaded = ca_loaded;
                server_loaded = server_loaded;
                signed_by_ca = signed_by_ca;
                certificate = refl;
                not_revoked = not_revoked;
                secret = secret;
                secret_length = secret_length;
                secret_chosen = secret_chosen;
                key = key;
                signing = refl;
                port = parsed;
                tls = (refl, refl);
                headers = refl;
              })
        ]
