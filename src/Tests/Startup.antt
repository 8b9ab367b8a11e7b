-- ===== src/Tests/Startup.antt =====
-- A server that starts with the key of a file, and the providers that it loads.
use pqc_api.Prelude.{◌≡◌, refl, true, false, some, none, List, [], ◌∷◌, Bytes, text, str_eq}
use pqc_api.Prelude.Int.{pos}
use pqc_api.Std.Outcome.{Outcome, returns}
use pqc_api.Crypto.Signer.{live}
use pqc_api.Startup.Config.{
  Server, Exit, env, signer_created, ocsp_created, auth_created, runs, exits, key_path_argument,
}
use pqc_api.Startup.Main.{
  Process, main, generate_key, server_at, check_certificates, connect_stores, start_auth,
  start_signer, run_server,
}
use pqc_api.Startup.KeyFile.{write_private_key_file, write_private_key_file_lem}
use pqc_api.Startup.Checks.{Checked, main_checks}
use pqc_api.Startup.Reached.{Offers, main_runs}
use pqc_api.Startup.Generated.{main_generated}
use pqc_api.Std.Strings.{c_str}
use pqc_api.Std.Decimal.{stoi}
use pqc_api.Persistence.PostgreSqlClient as PostgreSql
use pqc_api.Persistence.RedisClient as Redis
use pqc_api.Pki.Certificate.{load_from_pem, verify_signature}
use pqc_api.Pki.Ocsp.{good, received, check_status, parse_response, build_request}
use pqc_api.Pki.Revocation.{check_cert, ask, valid_entry}
use pqc_api.Crypto.Signer.{
  load_private_key, generate_key_pair, export_private_key_pem, export_key_pem,
}
use pqc_api.Tests.Fakes.Machine.{
  files, files-FileLaws, host, certificates, responder, process, jwt_key, evp_later,
  evp_later-PrivatePemLaws,
}
use pqc_api.Startup.Secrets.{jwt_secret, key_file, new_signer, prepare_signer}
use pqc_api.Tls.OqsProvider.{OqsProvider, initial, load, unload, start, by_load, unload-Reachable}
use pqc_api.Tests.Fakes.Keys.{evp}

short_secret : jwt_secret (some (text "secret")) ≡ none
unfolding jwt_secret text
short_secret = refl

unload-Reachable_example :
    (s' : OqsProvider) × (unload (load (λ name. true) initial).1 ≡ returns s') × (s'.loaded ≡ false)
unload-Reachable_example =
    unload-Reachable (load (λ name. true) initial).1 (by_load (λ name. true) initial start)

abbrev the_server : Server certificates evp
the_server =
    server_at host certificates responder evp files (pos 8443) jwt_key
      (record { private_key = live b'K'; public_key = live b'K' }) (some (pos 1700086400))
      (some true) (record { err = 0; errstr = [] })

started : (main host certificates responder evp files 0 0 [] process).0 ≡ returns (runs the_server)
unfolding main load check_certificates load_from_pem verify_signature ocsp_created check_cert
    connect_stores start_auth jwt_secret auth_created start_signer signer_created prepare_signer
    load_private_key run_server text str_eq env stoi PostgreSql.connect Redis.connect c_str
    key_path_argument valid_entry ask check_status build_request parse_response received
started = refl

main_checks_example : Checked host certificates responder evp files 0 0 [] process the_server
main_checks_example = main_checks host certificates responder evp files 0 0 [] process started

offers : Offers host certificates responder evp files 0 0 [] process
unfolding load load_from_pem verify_signature check_cert jwt_secret prepare_signer load_private_key
    text str_eq env stoi PostgreSql.connect Redis.connect c_str key_path_argument valid_entry ask
    check_status build_request parse_response received
offers = record {
  provider = refl;
  server_mode = refl;
  ca_loaded = refl;
  server_loaded = refl;
  signed_by_ca = refl;
  curl = refl;
  status = good;
  asked = refl;
  not_revoked = refl;
  redis_port = pos 6379;
  redis_port_reads = refl;
  database = some true;
  database_made = refl;
  sessions = record { err = 0; errstr = [] };
  sessions_made = refl;
  secret_key = jwt_key;
  secret = refl;
  sodium = refl;
  signing_key = λ e. cc;
  port = pos 8443;
  port_reads = refl;
}

main_runs_example :
    (v : Server certificates evp) × ((main host certificates responder evp files 0 0 [] process).0
      ≡ returns (runs v))
main_runs_example = main_runs host certificates responder evp files 0 0 [] process offers

abbrev generation : List Bytes
generation = text "--generate-mldsa-key" ∷ text "new.pem" ∷ []

abbrev generated : Outcome (Exit certificates evp_later) × Process certificates responder files
generated = main host certificates responder evp_later files 0 0 generation process

generation_mode : key_path_argument generation ≡ some (text "new.pem")
unfolding key_path_argument str_eq text
generation_mode = refl

generated_key :
    (generated.0 ≡ returns (exits 0))
    × (evp_later.fopen (c_str (text "new.pem"))
        ≡ files-FileLaws.contents generated.1.disk.files (c_str (text "new.pem")))
unfolding main load generate_key signer_created generate_key_pair export_private_key_pem
    export_key_pem write_private_key_file key_path_argument str_eq text c_str
generated_key = (refl, refl)

main_generated_example :
    (files-FileLaws.contents generated.1.disk.files (c_str (text "new.pem")) ≡ some (5 ∷ []))
    × (files-FileLaws.mode generated.1.disk.files (c_str (text "new.pem")) ≡ 0x180)
    × (prepare_signer evp_later (text "new.pem") (new_signer evp_later)
        ≡ (returns key_file, record { private_key = live 5; public_key = live 5 }))
main_generated_example =
    main_generated host certificates responder evp_later files files-FileLaws
      evp_later-PrivatePemLaws (text "new.pem") (5 ∷ []) 5 5 refl refl refl 0 0 generation process
      generation_mode generated_key.0 generated_key.1 refl

write_private_key_file_lem_example :
    ((old : Bytes)
      → files-FileLaws.contents process.disk.files (c_str (text "new.pem")) ≡ some old
      → write_private_key_file files (text "new.pem") (text "key") process.disk
        ≡ (false, process.disk))
    × ((write_private_key_file files (text "new.pem") (text "key") process.disk).0 ≡ true
        → (files-FileLaws.contents
              (write_private_key_file files (text "new.pem") (text "key") process.disk).1.files
              (c_str (text "new.pem"))
            ≡ some (text "key"))
          × (files-FileLaws.mode
                (write_private_key_file files (text "new.pem") (text "key") process.disk).1.files
                (c_str (text "new.pem"))
              ≡ 0x180))
    × ((other : Bytes)
        → str_eq other (c_str (text "new.pem")) ≡ false
        → files-FileLaws.contents
            (write_private_key_file files (text "new.pem") (text "key") process.disk).1.files
            other
          ≡ files-FileLaws.contents process.disk.files other)
    × ((write_private_key_file files (text "new.pem") (text "key") process.disk).1.umask
        ≡ process.disk.umask)
write_private_key_file_lem_example =
    write_private_key_file_lem files files-FileLaws (text "new.pem") (text "key") process.disk
