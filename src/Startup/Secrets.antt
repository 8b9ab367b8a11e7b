-- ===== src/Startup/Secrets.antt =====
-- The JWT secret and the signing key of src/main.cpp: what it takes, makes or refuses.
use pqc_api.Prelude.{
  ◌≡◌, ◌⊎◌, ◌||◌, refl, inl, inr, Bool, Option, none, some, ltb, length, if◌then◌else◌, Bytes, text,
  str_eq, Bool-cases, Option-cases,
}
use pqc_api.Std.Outcome.{Outcome, returns}
use pqc_api.Std.Exec.{Exec, pure, ◌>>=◌}
use pqc_api.Std.Strings.{c_str}
use pqc_api.External.Evp.{Evp}
use pqc_api.Crypto.Signer.{
  Signer, null, live, pointer_of, read_private, load_private_key, generate_key_pair,
}
use pqc_api.Crypto.Signer.Keys.{load_private_key_opened, load_private_key_missing}

-- The JWT secret, if the variable is set, long enough and not the placeholder.
unfoldable pub jwt_secret : Option Bytes → Option Bytes
jwt_secret none = none
jwt_secret (some s) =
    if ltb (length s) 32 || str_eq s (text "change-me-in-production") then none else some s

-- Where the signing key comes from; without one `main` aborts.
pub data Source : Type 0 where
  key_file new_key no_key : Source

module _ (E : Evp) where
  abbrev pub new_signer : Signer E
  new_signer = record { private_key = null; public_key = null }

  abbrev generate : Exec (Signer E) Source
  generate s =
      let (done, s') = generate_key_pair E s in (returns (if done then new_key else no_key), s')

  abbrev generate_unless : Bool → Exec (Signer E) Source
  generate_unless loaded = if loaded then pure key_file else generate

  -- The key of the file, or else a new one.
  unfoldable pub prepare_signer : Bytes → Exec (Signer E) Source
  prepare_signer mldsa_key_path = load_private_key E mldsa_key_path >>= generate_unless

  -- A signer with a private key and, if it can be copied, its copy.
  abbrev IsReady : Outcome Source × Signer E → Type 0
  IsReady (r, s) =
      ((r ≡ returns key_file) ⊎ (r ≡ returns new_key))
      × ((k : E.Key) × (s ≡ record { private_key = live k; public_key = pointer_of E (E.dup k) }))

  generate-IsReady : (s : Signer E) → IsReady (generate s) ⊎ ((generate s).0 ≡ returns no_key)
  unfolding generate_key_pair
  generate-IsReady s = elim (Bool-cases (E.key_ctx_new (text "mldsa65"))) [
    | inr no_ctx ↦ inr (rw no_ctx refl)
    | inl ctx ↦ elim (Bool-cases (E.keygen_init (text "mldsa65"))) [
      | inr no_init ↦ inr (rw (ctx, no_init) refl)
      | inl init ↦ elim (Option-cases (E.generate (text "mldsa65"))) [
        | inl nothing ↦ inr (rw (ctx, init, nothing) refl)
        | inr (k, key) ↦ inl (rw (ctx, init, key) (inr refl, (k, refl)))
      ]
    ]
  ]

  finish-IsReady :
      (found : Option E.Key) (s : Signer E)
      → let r = (read_private E found >>= generate_unless) s in IsReady r ⊎ (r.0 ≡ returns no_key)
  finish-IsReady none s = generate-IsReady _
  finish-IsReady (some k) s = elim (Option-cases (E.dup k)) [
    | inl no_copy ↦ rw no_copy (generate-IsReady _)
    | inr (k', copy) ↦ inl (rw copy (inl refl), (k, rw copy refl))
  ]

  -- Whatever the key file holds, `main` either aborts, or goes on with a signer that has a live
  -- private key and, as its public key, what `EVP_PKEY_dup` makes of it; no freed key is touched.
  pub prepare_signer_outcome :
      (mldsa_key_path : Bytes)
      → ((((prepare_signer mldsa_key_path new_signer).0 ≡ returns key_file)
            ⊎ ((prepare_signer mldsa_key_path new_signer).0 ≡ returns new_key))
          × ((k : E.Key) × ((prepare_signer mldsa_key_path new_signer).1
                ≡ record { private_key = live k; public_key = pointer_of E (E.dup k) })))
        ⊎ ((prepare_signer mldsa_key_path new_signer).0 ≡ returns no_key)
  unfolding prepare_signer
  prepare_signer_outcome mldsa_key_path = elim (Option-cases (E.fopen (c_str mldsa_key_path))) [
    | inl missing ↦
        rw (load_private_key_missing E new_signer mldsa_key_path missing)
          (generate-IsReady new_signer)
    | inr (contents, opened) ↦
        rw (load_private_key_opened E null null mldsa_key_path contents (λ e. cc) (λ e. cc) opened)
          (finish-IsReady (E.pem_read_private contents) _)
  ]
