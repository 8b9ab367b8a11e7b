-- ===== src/Startup/Reached.antt =====
-- What is enough for `main` to start the server.
use pqc_api.Prelude.{
  ℕ, ◌≡◌, ◌≢◌, refl, ap, [], if◌then◌else◌, ◌∙◌, inl, inr, Bool, true, false, Option, none, some,
  List, not, Bytes, text, Bool-cases,
}
use pqc_api.Prelude.Int.{ℤ, pos, ltb_ℤ}
use pqc_api.Std.Outcome.{Outcome, returns}
use pqc_api.Std.Exec.{continue}
use pqc_api.Std.Decimal.{stoi}
use pqc_api.External.Host.{Host}
use pqc_api.External.Files.{Files}
use pqc_api.External.Evp.{Evp}
use pqc_api.External.X509.{X509}
use pqc_api.External.Ocsp.{Ocsp}
use pqc_api.Persistence.PostgreSqlClient as PostgreSql
use pqc_api.Persistence.RedisClient as Redis
use pqc_api.Persistence.RedisClient.{Context}
use pqc_api.Crypto.Signer.{
  Signer, Pointer, live, pointer_of, text_or_empty, export_private_key_pem, export_key_pem,
}
use pqc_api.Tls.OqsProvider.{OqsProvider, load}
use pqc_api.Pki.Certificate.{Certificate, verify_signature}
use pqc_api.Pki.Ocsp.{CertStatus}
use pqc_api.Startup.Config.{
  key_path_argument, is_revoked, env, signer_created, ocsp_created, auth_created, Server, runs,
}
use pqc_api.Startup.Secrets.{jwt_secret, no_key, new_signer, prepare_signer, prepare_signer_outcome}
use pqc_api.Startup.Main.{
  Process, require, server_at, mldsa_key_path, database_url, redis_context, run_server,
  start_signer, start_auth, connect_stores, ask_status, ca_read, server_read, check_certificates,
  main,
}

pub load-loaded :
    (loads : Bytes → Bool) (s : OqsProvider)
    → (load loads s).0 ≡ true
    → (load loads s).1.loaded ≡ true
unfolding load
load-loaded loads s e = elim (Bool-cases s.loaded) [
  | inl on ↦ rw on refl
  | inr off ↦ elim (Bool-cases (loads (text "default"))) [
    | inr missing ↦ let wrong = rw (off, missing) at e in cc
    | inl found ↦ elim (Bool-cases (loads (text "oqsprovider"))) [
      | inr missing ↦ let wrong = rw (off, found, missing) at e in cc
      | inl both ↦ rw (off, found, both) refl
    ]
  ]
]

curl_ready : (H : Host) → H.curl_init ≡ true → ocsp_created H ≡ returns tt
unfolding ocsp_created
curl_ready H ready = rw ready refl

sodium_ready : (H : Host) → ltb_ℤ H.sodium_init (pos 0) ≡ false → auth_created H ≡ returns tt
unfolding auth_created
sodium_ready H ready = rw ready refl

module _ (H : Host) (X : X509) (C : Ocsp X) (E : Evp) (F : Files) where
  -- What the environment, the files and the services have to offer.
  pub record Offers (now done : ℕ) (arguments : List Bytes) (p : Process X C F) : Type 0 where
    pub provider : (load H.provider p.provider).0 ≡ true
    pub server_mode : key_path_argument arguments ≡ none
    pub ca_loaded : (ca_read H X C E F).0 ≡ true
    pub server_loaded : (server_read H X C E F).0 ≡ true
    pub signed_by_ca : verify_signature X (server_read H X C E F).1 (ca_read H X C E F).1 ≡ true
    pub curl : H.curl_init ≡ true
    pub status : CertStatus
    pub asked :
        (ask_status H X C E F now done
          (server_read H X C E F).1
          (ca_read H X C E F).1
          (record p { provider = (load H.provider p.provider).1 })).0
        ≡ returns status
    pub not_revoked : is_revoked status ≡ false
    pub redis_port : ℤ
    pub redis_port_reads : stoi (env H (text "REDIS_PORT") (text "6379")) ≡ returns redis_port
    pub database : Option Bool
    pub database_made :
        PostgreSql.connect (H.pg_connection (database_url H X C E F)) ≡ returns database
    pub sessions : Context
    pub sessions_made : Redis.connect (redis_context H X C E F redis_port) ≡ returns sessions
    pub secret_key : Bytes
    pub secret : jwt_secret (H.getenv (text "JWT_SECRET")) ≡ some secret_key
    pub sodium : ltb_ℤ H.sodium_init (pos 0) ≡ false
    pub signing_key :
        (prepare_signer E (mldsa_key_path H X C E F) (new_signer E)).0 ≢ returns no_key
    pub port : ℤ
    pub port_reads : stoi (env H (text "SERVER_PORT") (text "8443")) ≡ returns port

  abbrev written : E.Key → Bytes
  written k = text_or_empty E (E.pem_write_private k)

  export-live :
      (k : E.Key) (public_key : Pointer E.Key)
      → (pem : Bytes) × (export_private_key_pem E
            (record { private_key = live k; public_key = public_key })
          ≡ returns pem)
  unfolding export_private_key_pem export_key_pem
  export-live k public_key = elim (Bool-cases E.bio_new) [
    | inl room ↦ (_, ap (λ b. if not b then returns [] else returns (written k)) room)
    | inr full ↦ (_, ap (λ b. if not b then returns [] else returns (written k)) full)
  ]

  module _ (port : ℤ)
      (port_reads : stoi (env H (text "SERVER_PORT") (text "8443")) ≡ returns port) where
    run_server_starts :
        (secret_key : Bytes) (signer : Signer E) (cert : Certificate X) (db : Option Bool)
        (ses : Context) (p : Process X C F)
        → (run_server H X C E F secret_key signer cert db ses p).0
          ≡ returns (runs (server_at H X C E F port secret_key signer cert db ses))
    unfolding run_server
    run_server_starts secret_key signer cert db ses p = rw port_reads refl

    start_signer_starts :
        (secret_key : Bytes) (cert : Certificate X) (db : Option Bool) (ses : Context)
        (p : Process X C F)
        → p.provider.loaded ≡ true
        → (prepare_signer E (mldsa_key_path H X C E F) (new_signer E)).0 ≢ returns no_key
        → (v : Server X E) × ((start_signer H X C E F secret_key cert db ses p).0
            ≡ returns (runs v))
    unfolding start_signer signer_created
    start_signer_starts secret_key cert db ses p loaded with_key =
        elim (prepare_signer_outcome E (mldsa_key_path H X C E F)) [
          | inr missing ↦ absurd (with_key missing)
          | inl (inl from_file, (k, ready)) ↦ (
            server_at H X C E F port secret_key
                (prepare_signer E (mldsa_key_path H X C E F) (new_signer E)).1 cert db ses,
            rw (loaded, from_file) (run_server_starts secret_key _ cert db ses _),
          )
          | inl (inr fresh, (k, ready)) ↦ (
            server_at H X C E F port secret_key
                (record { private_key = live k; public_key = pointer_of E (E.dup k) }) cert db ses,
            let (pem, exported) = export-live k (pointer_of E (E.dup k)) in
                rw (loaded, fresh, ready, exported) (run_server_starts secret_key _ cert db ses _),
          )
        ]

  abbrev asked_at : ℕ → ℕ → Process X C F → Outcome CertStatus × Process X C F
  asked_at now done = ask_status H X C E F now done (server_read H X C E F).1 (ca_read H X C E F).1

  check_certificates_starts :
      (now done : ℕ) (p : Process X C F) (status : CertStatus)
      → (ca_read H X C E F).0 ≡ true
      → (server_read H X C E F).0 ≡ true
      → verify_signature X (server_read H X C E F).1 (ca_read H X C E F).1 ≡ true
      → H.curl_init ≡ true
      → (asked_at now done p).0 ≡ returns status
      → is_revoked status ≡ false
      → (check_certificates H X C E F now done p).0
        ≡ (connect_stores H X C E F (server_read H X C E F).1 (asked_at now done p).1).0
  unfolding check_certificates
  check_certificates_starts now done p status ca server verified curl asked not_revoked =
      let checked = λ (r : Outcome CertStatus).
        (continue r
          (λ answer.
            require H X C E F (not (is_revoked answer))
              (connect_stores H X C E F (server_read H X C E F).1))
          (asked_at now done p).1).0 in
      rw (ca, server, verified, curl_ready H curl) (ap checked asked ∙ rw not_revoked refl)

  connect_stores_starts :
      (cert : Certificate X) (p : Process X C F) (port : ℤ) (db : Option Bool) (ses : Context)
      (secret_key : Bytes)
      → stoi (env H (text "REDIS_PORT") (text "6379")) ≡ returns port
      → PostgreSql.connect (H.pg_connection (database_url H X C E F)) ≡ returns db
      → Redis.connect (redis_context H X C E F port) ≡ returns ses
      → jwt_secret (H.getenv (text "JWT_SECRET")) ≡ some secret_key
      → ltb_ℤ H.sodium_init (pos 0) ≡ false
      → (connect_stores H X C E F cert p).0 ≡ (start_signer H X C E F secret_key cert db ses p).0
  unfolding connect_stores start_auth
  connect_stores_starts cert p port db ses secret_key reads made reached taken sodium =
      rw (reads, made, reached, start_auth, taken, sodium_ready H sodium) refl

  -- If the environment, the files and the services offer all that is asked for, then the server
  -- runs: the provider loads, the arguments are not those of the key generation, the certificates are
  -- read and verified and not revoked, the two stores connect, the secret passes its test, the
  -- libraries initialise, a signing key is read or made, and the two ports are numbers.
  pub main_runs :
      (now done : ℕ) (arguments : List Bytes) (p : Process X C F)
      → Offers now done arguments p
      → (v : Server X E) × ((main H X C E F now done arguments p).0 ≡ returns (runs v))
  unfolding main
  main_runs now done arguments p o =
      let p1 = record p { provider = (load H.provider p.provider).1 } in
      let p2 = (asked_at now done p1).1 in
      let (v, started) =
        start_signer_starts o.port o.port_reads o.secret_key (server_read H X C E F).1 o.database
          o.sessions p2 (load-loaded H.provider p.provider o.provider) o.signing_key in
      (
        v,
        rw (o.provider, o.server_mode)
              (check_certificates_starts now done p1 o.status o.ca_loaded o.server_loaded
                o.signed_by_ca o.curl o.asked o.not_revoked)
            ∙ connect_stores_starts _ p2 o.redis_port o.database o.sessions o.secret_key
                o.redis_port_reads o.database_made o.sessions_made o.secret o.sodium
            ∙ started,
      )
