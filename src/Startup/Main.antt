-- ===== src/Startup/Main.antt =====
-- `main` of src/main.cpp, from its first check to the listener that it starts.
use pqc_api.Prelude.{ℕ, ◌*◌, Bool, true, false, Option, none, some, List, ◌&&◌, not, Bytes, text}
use pqc_api.Prelude.Int.{ℤ}
use pqc_api.Std.Outcome.{Outcome, returns, throws}
use pqc_api.Std.Exec.{Exec, pure, lift, ◌>>=◌}
use pqc_api.Std.Strings.{c_str}
use pqc_api.Std.Decimal.{stoi}
use pqc_api.External.Host.{Host}
use pqc_api.External.Files.{Files}
use pqc_api.External.Evp.{Evp}
use pqc_api.External.X509.{X509}
use pqc_api.External.Ocsp.{Ocsp}
use pqc_api.Persistence.PostgreSqlClient as PostgreSql
use pqc_api.Persistence.RedisClient as Redis
use pqc_api.Persistence.RedisClient.{Context, timeval_of, default_timeout_ms}
use pqc_api.Crypto.Signer.{Signer, generate_key_pair, export_private_key_pem}
use pqc_api.Tls.OqsProvider.{OqsProvider, load}
use pqc_api.Pki.Certificate.{Certificate, load_from_pem, verify_signature}
use pqc_api.Pki.Ocsp.{CertStatus}
use pqc_api.Pki.Revocation.{default_cache_ttl_seconds, check_cert}
use pqc_api.Startup.Config.{
  ssl_conf_cmds, security_headers, key_path_argument, is_revoked, env, signer_created, ocsp_created,
  auth_created, Server, Exit, exits, runs,
}
use pqc_api.Startup.KeyFile.{Disk, write_private_key_file}
use pqc_api.Startup.Secrets.{
  jwt_secret, Source, key_file, new_key, no_key, new_signer, prepare_signer,
}

module _ (X : X509) (C : Ocsp X) (F : Files) where
  pub record Process : Type 0 where
    pub provider : OqsProvider
    pub net : C.Net
    pub disk : Disk F

module _ (H : Host) (X : X509) (C : Ocsp X) (E : Evp) (F : Files) where
  -- `if (!ok) return 1;`
  abbrev pub require : Bool → Exec (Process X C F) (Exit X E) → Exec (Process X C F) (Exit X E)
  require true rest = rest
  require false rest = pure (exits 1)

  abbrev load_provider : Exec (Process X C F) Bool
  load_provider p =
      let (loaded, provider) = load H.provider p.provider in
      (returns loaded, record p { provider = provider })

  abbrev write_key : Bytes → Bytes → Exec (Process X C F) Bool
  write_key path pem p =
      let (done, disk) = write_private_key_file F path pem p.disk in
      (returns done, record p { disk = disk })

  -- A signer of its own; `&&` writes no file without a key.
  abbrev pub generate_to : Bytes → Bool × Signer E → Exec (Process X C F) Bool
  generate_to path (false, signer) = pure false
  generate_to path (true, signer) =
      lift (export_private_key_pem E signer) >>= λ pem. write_key path pem

  -- The branch `--generate-mldsa-key`.
  unfoldable pub generate_key : Bytes → Exec (Process X C F) (Exit X E)
  generate_key path = do
    created ← λ p. (signer_created p.provider, p)
    done ← generate_to path (generate_key_pair E (new_signer E))
    require done (pure (exits 0))

  abbrev pub server_at : ℤ → Bytes → Signer E → Certificate X → Option Bool → Context → Server X E
  server_at server_port secret_key signer server_cert database sessions = record {
    listener = record {
      port = server_port;
      use_ssl = true;
      cert_file = env H (text "TLS_CERT_PATH") (text "/certs/server.crt");
      key_file = env H (text "TLS_KEY_PATH") (text "/certs/server.key");
      use_old_tls = false;
      ssl_conf_cmds = ssl_conf_cmds;
    };
    headers = security_headers;
    document_root = text "./static";
    thread_num = 4;
    client_max_body_size = 50 * 1024 * 1024;
    secret_key = secret_key;
    signer = signer;
    server_cert = server_cert;
    database = database;
    sessions = sessions;
  }

  -- The end of `main`, from `SERVER_PORT` on.
  unfoldable pub run_server :
      Bytes → Signer E → Certificate X → Option Bool → Context → Exec (Process X C F) (Exit X E)
  run_server secret_key signer server_cert database sessions = do
    server_port ← lift (stoi (env H (text "SERVER_PORT") (text "8443")))
    pure (runs (server_at server_port secret_key signer server_cert database sessions))

  abbrev pub mldsa_key_path : Bytes
  mldsa_key_path = env H (text "MLDSA_KEY_PATH") (text "/certs/mldsa_server.key")

  -- A new key is written to the file; whether that succeeds is only logged.
  abbrev pub keep_key : Source → Signer E → Exec (Process X C F) Bool
  keep_key key_file signer = pure true
  keep_key new_key signer =
      lift (export_private_key_pem E signer) >>= λ pem. write_key mldsa_key_path pem
  keep_key no_key signer = pure false

  abbrev pub has_key : Source → Bool
  has_key no_key = false
  has_key source = true

  abbrev pub beside : Outcome Source × Signer E → Outcome (Source × Signer E)
  beside (returns source, signer) = returns (source, signer)
  beside (throws e, signer) = throws e

  -- The signer, and then the listener.
  unfoldable pub start_signer :
      Bytes → Certificate X → Option Bool → Context → Exec (Process X C F) (Exit X E)
  start_signer secret_key server_cert database sessions = do
    created ← λ p. (signer_created p.provider, p)
    (source, signer) ← lift (beside (prepare_signer E mldsa_key_path (new_signer E)))
    require (has_key source) (
        keep_key source signer >>= λ kept.
        run_server secret_key signer server_cert database sessions)

  -- The JWT secret, `AuthManager` and what follows.
  unfoldable pub start_auth :
      Certificate X → Option Bool → Context → Exec (Process X C F) (Exit X E)
  start_auth server_cert database sessions = elim (jwt_secret (H.getenv (text "JWT_SECRET"))) [
    | none ↦ pure (exits 1)
    | some secret_key ↦
        lift (auth_created H) >>= λ created. start_signer secret_key server_cert database sessions
  ]

  abbrev pub database_url : Bytes
  database_url =
      env H (text "DATABASE_URL")
        (text "host = postgres port = 5432 dbname = pqcapi user = pqcuser password = pqcpass")

  abbrev pub redis_context : ℤ → Option Context
  redis_context redis_port =
      H.redis_connect (c_str (env H (text "REDIS_HOST") (text "redis"))) redis_port
        (timeval_of default_timeout_ms)

  -- The connections of the persistence layer.
  unfoldable pub connect_stores : Certificate X → Exec (Process X C F) (Exit X E)
  connect_stores server_cert = do
    redis_port ← lift (stoi (env H (text "REDIS_PORT") (text "6379")))
    database ← lift (PostgreSql.connect (H.pg_connection database_url))
    sessions ← lift (Redis.connect (redis_context redis_port))
    start_auth server_cert database sessions

  -- `revocation.checkCert(server_cert, ca_cert)` on an empty cache.
  abbrev pub ask_status : ℕ → ℕ → Certificate X → Certificate X → Exec (Process X C F) CertStatus
  ask_status now done server_cert ca_cert p =
      let (status, checker) =
        check_cert X C (env H (text "OCSP_URL") (text "http://ocsp:8080")) default_cache_ttl_seconds
          now done server_cert ca_cert (record { cache = λ key. none; net = p.net }) in
      (returns status, record p { net = checker.net })

  abbrev pub ca_read : Bool × Certificate X
  ca_read = load_from_pem X (env H (text "CA_CERT_PATH") (text "/certs/ca.crt")) none

  abbrev pub server_read : Bool × Certificate X
  server_read = load_from_pem X (env H (text "TLS_CERT_PATH") (text "/certs/server.crt")) none

  unfoldable pub check_certificates : ℕ → ℕ → Exec (Process X C F) (Exit X E)
  check_certificates now done = require (ca_read.0 && server_read.0) (
      require (verify_signature X server_read.1 ca_read.1) (
        lift (ocsp_created H) >>= λ created.
        ask_status now done server_read.1 ca_read.1 >>= λ cert_status.
        require (not (is_revoked cert_status)) (connect_stores server_read.1)))

  -- `main` on the arguments behind the program's name; `now` and `done` are the times of the clock
  -- before and after the query to the OCSP responder.
  unfoldable pub main : ℕ → ℕ → List Bytes → Exec (Process X C F) (Exit X E)
  main now done arguments = do
    loaded ← load_provider
    require loaded (elim (key_path_argument arguments) [
      | some path ↦ generate_key path
      | none ↦ check_certificates now done
    ])
