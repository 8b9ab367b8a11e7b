-- ===== src/Startup/Steps.antt =====
-- The steps of `main` that lead to a server that runs: what each has passed.
use pqc_api.Prelude.{
  ℕ, ◌≡◌, ◌≢◌, ◌≤◌, refl, ap, sym, ◌∙◌, inl, inr, arith, Bool, true, false, Option, none, some,
  ◌&&◌, not, ltb, length, Bytes, text, str_eq, Bool-cases, Option-cases,
}
use pqc_api.Prelude.Int.{ℤ}
use pqc_api.Std.Outcome.{Outcome, returns, throws}
use pqc_api.Std.Exec.{Exec, continue}
use pqc_api.Std.Decimal.{stoi}
use pqc_api.External.Host.{Host}
use pqc_api.External.Files.{Files}
use pqc_api.External.Evp.{Evp}
use pqc_api.External.X509.{X509}
use pqc_api.External.Ocsp.{Ocsp}
use pqc_api.Persistence.PostgreSqlClient as PostgreSql
use pqc_api.Persistence.RedisClient as Redis
use pqc_api.Persistence.RedisClient.{Context}
use pqc_api.Crypto.Signer.{Signer, generate_key_pair, live, pointer_of}
use pqc_api.Pki.Certificate.{Certificate, verify_signature}
use pqc_api.Pki.Ocsp.{revoked}
use pqc_api.Startup.Config.{
  is_revoked, env, signer_created, ocsp_created, auth_created, Server, Exit, exits, runs,
}
use pqc_api.Startup.Secrets.{
  jwt_secret, Source, no_key, new_signer, prepare_signer, prepare_signer_outcome,
}
use pqc_api.Startup.Main.{
  Process, require, server_at, mldsa_key_path, database_url, redis_context, has_key, keep_key,
  beside, generate_to, generate_key, run_server, start_signer, start_auth, connect_stores,
  ask_status, ca_read, server_read, check_certificates,
}

-- A step that is followed by a result has returned.
continue_returns :
    {S A B : Type 0} (r : Outcome A) (f : A → Exec S B) (s : S) {b : B}
    → (continue r f s).0 ≡ returns b
    → (a : A) × (r ≡ returns a) × ((f a s).0 ≡ returns b)
continue_returns (returns a) f s e = (a, refl, e)
continue_returns (throws x) f s e = cc

-- The secret that `main` takes is that of the environment, and passed both tests.
pub jwt_secret-some :
    (found : Option Bytes) (secret : Bytes)
    → jwt_secret found ≡ some secret
    → (found ≡ some secret)
      × (32 ≤ length secret)
      × (str_eq secret (text "change-me-in-production") ≡ false)
unfolding jwt_secret
jwt_secret-some none secret e = cc
jwt_secret-some (some s) secret e = elim (Bool-cases (ltb (length s) 32)) [
  | inl short ↦ let wrong = rw short at e in cc
  | inr long ↦ elim (Bool-cases (str_eq s (text "change-me-in-production"))) [
    | inl placeholder ↦ let wrong = rw (long, placeholder) at e in cc
    | inr other ↦
        let same : some s ≡ some secret = rw (long, other) at e in
        let eq : s ≡ secret = cc in (same, rw (← eq) (ground arith), rw (← eq) other)
  ]
]

module _ (H : Host) (X : X509) (C : Ocsp X) (E : Evp) (F : Files) where
  pub require_runs :
      (b : Bool) (rest : Exec (Process X C F) (Exit X E)) (p : Process X C F) {v : Server X E}
      → (require H X C E F b rest p).0 ≡ returns (runs v)
      → (b ≡ true) × ((rest p).0 ≡ returns (runs v))
  require_runs true rest p e = (refl, e)
  require_runs false rest p e = cc

  beside_returns :
      (r : Outcome Source × Signer E) (source : Source) (signer : Signer E)
      → beside H X C E F r ≡ returns (source, signer)
      → (r.0 ≡ returns source) × (r.1 ≡ signer)
  beside_returns (returns s, t) source signer e = (cc, cc)
  beside_returns (throws x, t) source signer e = cc

  module _ {v : Server X E} where
    run_server_runs :
        (secret_key : Bytes) (signer : Signer E) (cert : Certificate X) (db : Option Bool)
        (ses : Context) (p : Process X C F)
        → (run_server H X C E F secret_key signer cert db ses p).0 ≡ returns (runs v)
        → (port : ℤ) × (stoi (env H (text "SERVER_PORT") (text "8443")) ≡ returns port)
          × (v ≡ server_at H X C E F port secret_key signer cert db ses)
    unfolding run_server
    run_server_runs secret_key signer cert db ses p e =
        let (port, parsed, same) = continue_returns _ _ p e in (port, parsed, cc)

    -- The signer that the server runs with holds a key and, if it can be copied, its copy.
    pub start_signer_runs :
        (secret_key : Bytes) (cert : Certificate X) (db : Option Bool) (ses : Context)
        (p : Process X C F)
        → (start_signer H X C E F secret_key cert db ses p).0 ≡ returns (runs v)
        → (k : E.Key) × (port : ℤ) × (stoi (env H (text "SERVER_PORT") (text "8443"))
            ≡ returns port)
          × (v
              ≡ server_at H X C E F port secret_key
                  (record { private_key = live k; public_key = pointer_of E (E.dup k) })
                  cert
                  db
                  ses)
    unfolding start_signer
    start_signer_runs secret_key cert db ses p e =
        let (_, created, e1) = continue_returns (signer_created p.provider) _ p e in
        let ((source, signer), prepared, e2) =
          continue_returns
            (beside H X C E F (prepare_signer E (mldsa_key_path H X C E F) (new_signer E))) _ p
            e1 in
        let (is_source, is_signer) = beside_returns _ source signer prepared in
        let (with_key, e3) = require_runs (has_key H X C E F source) _ p e2 in
        let (_, kept, e4) = continue_returns (keep_key H X C E F source signer p).0 _ _ e3 in
        let (port, parsed, same) = run_server_runs secret_key signer cert db ses _ e4 in
        elim (prepare_signer_outcome E (mldsa_key_path H X C E F)) [
          | inl (_, (k, ready)) ↦ (
            k,
            port,
            parsed,
            same
                ∙ ap (λ t. server_at H X C E F port secret_key t cert db ses)
                    (sym is_signer ∙ ready),
          )
          | inr missing ↦
              let wrong : returns no_key ≡ returns source = sym missing ∙ is_source in
              let eq : no_key ≡ source = cc in let absurd_key = rw (← eq) at with_key in cc
        ]

    -- The secret has passed its test.
    pub start_auth_runs :
        (cert : Certificate X) (db : Option Bool) (ses : Context) (p : Process X C F)
        → (start_auth H X C E F cert db ses p).0 ≡ returns (runs v)
        → (secret_key : Bytes) × (jwt_secret (H.getenv (text "JWT_SECRET")) ≡ some secret_key)
          × ((start_signer H X C E F secret_key cert db ses p).0 ≡ returns (runs v))
    unfolding start_auth
    start_auth_runs cert db ses p e =
        elim (Option-cases (jwt_secret (H.getenv (text "JWT_SECRET")))) [
          | inl refused ↦ let wrong = rw (refused, start_auth) at e in cc
          | inr (secret_key, taken) ↦
              let e1 = rw (taken, start_auth) at e in
              let (_, created, e2) = continue_returns (auth_created H) _ p e1 in
              (secret_key, taken, e2)
        ]

    -- The connections have been made.
    pub connect_stores_runs :
        (cert : Certificate X) (p : Process X C F)
        → (connect_stores H X C E F cert p).0 ≡ returns (runs v)
        → (db : Option Bool) × (ses : Context) × ((start_auth H X C E F cert db ses p).0
            ≡ returns (runs v))
    unfolding connect_stores
    connect_stores_runs cert p e =
        let (port, parsed, e1) =
          continue_returns (stoi (env H (text "REDIS_PORT") (text "6379"))) _ p e in
        let (db, connected, e2) =
          continue_returns (PostgreSql.connect (H.pg_connection (database_url H X C E F))) _ p e1 in
        let (ses, reached, e3) =
          continue_returns (Redis.connect (redis_context H X C E F port)) _ p e2 in
        (db, ses, e3)

    pub check_certificates_runs :
        (now done : ℕ) (p : Process X C F)
        → (check_certificates H X C E F now done p).0 ≡ returns (runs v)
        → ((ca_read H X C E F).0 ≡ true)
          × ((server_read H X C E F).0 ≡ true)
          × (verify_signature X (server_read H X C E F).1 (ca_read H X C E F).1 ≡ true)
          × ((ask_status H X C E F now done (server_read H X C E F).1 (ca_read H X C E F).1 p).0
              ≢ returns revoked)
          × ((p' : Process X C F) × ((connect_stores H X C E F (server_read H X C E F).1 p').0
                ≡ returns (runs v)))
    unfolding check_certificates
    check_certificates_runs now done p e =
        let (loaded, e1) =
          require_runs ((ca_read H X C E F).0 && (server_read H X C E F).0) _ p e in
        let (verified, e2) =
          require_runs (verify_signature X (server_read H X C E F).1 (ca_read H X C E F).1) _ p
            e1 in
        let (_, created, e3) = continue_returns (ocsp_created H) _ p e2 in
        let (status, asked, e4) =
          continue_returns
            (ask_status H X C E F now done (server_read H X C E F).1 (ca_read H X C E F).1 p).0
            (λ status.
              require H X C E F (not (is_revoked status))
                (connect_stores H X C E F (server_read H X C E F).1))
            (ask_status H X C E F now done (server_read H X C E F).1 (ca_read H X C E F).1 p).1
            e3 in
        let (good_enough, e5) = require_runs (not (is_revoked status)) _ _ e4 in
        (
          ground arith,
          ground arith,
          verified,
          λ bad.
              let wrong : returns revoked ≡ returns status = sym bad ∙ asked in
              let eq : revoked ≡ status = cc in let refused = rw (← eq) at good_enough in cc,
          (_, e5),
        )

    -- The key generation mode starts no server.
    pub generate_key_ends :
        (path : Bytes) (p : Process X C F) → (generate_key H X C E F path p).0 ≢ returns (runs v)
    unfolding generate_key
    generate_key_ends path p e =
        let (_, created, e1) = continue_returns (signer_created p.provider) _ p e in
        let (written, done, e2) =
          continue_returns (generate_to H X C E F path (generate_key_pair E (new_signer E)) p).0
            (λ written. require H X C E F written (λ q. (returns (exits 0), q)))
            (generate_to H X C E F path (generate_key_pair E (new_signer E)) p).1 e1 in
        let (_, ended) = require_runs written _ _ e2 in cc
