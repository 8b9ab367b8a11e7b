-- ===== src/Startup/Generated.antt =====
-- The key generation mode: the file that it writes is the one that the server reads.
use pqc_api.Prelude.{
  ℕ, ◌≡◌, refl, ap, ◌∙◌, inl, inr, Bool, true, false, some, List, not, ◌⊎◌, [], if◌then◌else◌,
  Bytes, text, Bool-cases,
}
use pqc_api.Std.Outcome.{returns}
use pqc_api.Std.Exec.{pure}
use pqc_api.Std.Strings.{c_str}
use pqc_api.External.Host.{Host}
use pqc_api.External.Files.{Files, FileLaws}
use pqc_api.External.Evp.{Evp, PrivatePemLaws}
use pqc_api.External.X509.{X509}
use pqc_api.External.Ocsp.{Ocsp}
use pqc_api.Crypto.Signer.{
  Signer, null, live, pointer_of, text_or_empty, generate_key_pair, export_private_key_pem,
  export_key_pem,
}
use pqc_api.Crypto.Signer.Keys.{load_private_key_opened}
use pqc_api.Tls.OqsProvider.{load}
use pqc_api.Startup.Config.{key_path_argument, signer_created, exits}
use pqc_api.Startup.KeyFile.{write_private_key_file, write_private_key_file_lem}
use pqc_api.Startup.Secrets.{key_file, new_signer, prepare_signer}
use pqc_api.Startup.Main.{Process, require, generate_key, main}

module _ (H : Host) (X : X509) (C : Ocsp X) (E : Evp) (F : Files) where
  require_exits :
      (b : Bool) (p : Process X C F)
      → (require H X C E F b (pure (exits 0)) p).0 ≡ returns (exits 0)
      → b ≡ true
  require_exits true p e = refl
  require_exits false p e = cc

  require_state : (b : Bool) (p : Process X C F) → (require H X C E F b (pure (exits 0)) p).1 ≡ p
  require_state true p = refl
  require_state false p = refl

  -- A signer that a key was generated for.
  generated_pair :
      (s : Signer E) (k : E.Key)
      → E.generate (text "mldsa65") ≡ some k
      → (generate_key_pair E s
          ≡ (true, record { private_key = live k; public_key = pointer_of E (E.dup k) }))
        ⊎ (generate_key_pair E s ≡ (false, s))
  unfolding generate_key_pair
  generated_pair s k made = elim (Bool-cases (E.key_ctx_new (text "mldsa65"))) [
    | inr no_ctx ↦ inr (rw no_ctx refl)
    | inl ctx ↦ elim (Bool-cases (E.keygen_init (text "mldsa65"))) [
      | inr no_init ↦ inr (rw (ctx, no_init) refl)
      | inl init ↦ inl (rw (ctx, init, made) refl)
    ]
  ]

  module _ (L : FileLaws F) (P : PrivatePemLaws E) (path pem : Bytes) (k copy : E.Key)
      (made : E.generate (text "mldsa65") ≡ some k) (room : E.bio_new ≡ true)
      (written : E.pem_write_private k ≡ some pem) where
    exported :
        export_private_key_pem E
          (record { private_key = live k; public_key = pointer_of E (E.dup k) })
        ≡ returns pem
    unfolding export_private_key_pem export_key_pem
    exported =
        ap (λ b. if not b then returns [] else returns (text_or_empty E (E.pem_write_private k)))
          room
        ∙ rw written refl

    -- A generation that ended with 0 wrote the file.
    generate_key_wrote :
        (p : Process X C F)
        → (generate_key H X C E F path p).0 ≡ returns (exits 0)
        → ((write_private_key_file F path pem p.disk).0 ≡ true)
          × ((generate_key H X C E F path p).1.disk ≡ (write_private_key_file F path pem p.disk).1)
    unfolding generate_key signer_created
    generate_key_wrote p e = elim (Bool-cases p.provider.loaded) [
      | inr off ↦ let wrong = rw off at e in cc
      | inl on ↦ elim (generated_pair (new_signer E) k made) [
        | inr failed ↦ let wrong = rw (on, failed) at e in cc
        | inl pair ↦
            let e1 = rw (on, pair, exported) at e in
            (
              require_exits _ _ e1,
              rw (on, pair, exported)
                  (ap (λ q. q.disk) (require_state (write_private_key_file F path pem p.disk).0 _)),
            )
      ]
    ]

    loads_restored :
        E.fopen (c_str path) ≡ some pem
        → E.dup (P.restored k) ≡ some copy
        → prepare_signer E path (new_signer E)
          ≡ (returns key_file, record { private_key = live (P.restored k); public_key = live copy })
    unfolding prepare_signer
    loads_restored found copied =
        rw
          (
            load_private_key_opened E null null path pem (λ e. cc) (λ e. cc) found,
            P.read-write k pem written,
            copied,
          )
          refl

    -- If the key generation mode ends with 0, then the file holds the key that was generated and can
    -- be read by its owner only. A server that later finds these contents at its key path starts with
    -- that key, as it reads back from the file, and with its copy; it generates no other. The key is
    -- taken to be written and to be copied without an allocation that fails.
    pub main_generated :
        (now done : ℕ) (arguments : List Bytes) (p : Process X C F)
        → key_path_argument arguments ≡ some path
        → (main H X C E F now done arguments p).0 ≡ returns (exits 0)
        → E.fopen (c_str path)
          ≡ L.contents (main H X C E F now done arguments p).1.disk.files (c_str path)
        → E.dup (P.restored k) ≡ some copy
        → (L.contents (main H X C E F now done arguments p).1.disk.files (c_str path) ≡ some pem)
          × (L.mode (main H X C E F now done arguments p).1.disk.files (c_str path) ≡ 0x180)
          × (prepare_signer E path (new_signer E) ≡ (
            returns key_file,
            record { private_key = live (P.restored k); public_key = live copy },
          ))
    unfolding main
    main_generated now done arguments p mode e found copied =
        elim (Bool-cases (load H.provider p.provider).0) [
          | inr off ↦ let wrong = rw off at e in cc
          | inl on ↦
              let p1 = record p { provider = (load H.provider p.provider).1 } in
              let e1 : (generate_key H X C E F path p1).0 ≡ returns (exits 0) =
                rw (on, mode) at e in
              let (stored, disk_after) = generate_key_wrote p1 e1 in
              let kept = (write_private_key_file_lem F L path pem p.disk).1 stored in
              let disk : (main H X C E F now done arguments p).1.disk
                  ≡ (write_private_key_file F path pem p.disk).1 =
                rw (on, mode) disk_after in
              let holds = ap (λ d. L.contents d.files (c_str path)) disk ∙ kept.0 in
              (
                holds,
                ap (λ d. L.mode d.files (c_str path)) disk ∙ kept.1,
                loads_restored (found ∙ holds) copied,
              )
        ]
