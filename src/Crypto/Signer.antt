-- ===== src/Crypto/Signer.antt =====
-- src/crypto/DilithiumSigner.cpp. A key member is a pointer: to nothing, to a key, or to a key that
-- was freed. Reading or freeing a freed key is undefined behaviour.
pub mod Keys
pub mod Pem
use pqc_api.Prelude.{
  Bool, true, false, ◌||◌, not, Option, none, some, [], if◌then◌else◌, Bytes, text, str_eq,
}
use pqc_api.Std.Outcome.{
  Exception, Outcome, returns, throws, runtime_error, invalid_argument, undefined, ◌>>=◌,
}
use pqc_api.Std.Exec.{Exec, pure, ◌>>=◌ as ◌>>>=◌}
use pqc_api.Std.Strings.{c_str}
use pqc_api.External.Evp.{Evp}

pub data Pointer (A : Type 0) : Type 0 where
  null freed : Pointer A
  live : A → Pointer A

module _ (E : Evp) where
  pub record Signer : Type 0 where
    pub private_key : Pointer E.Key
    pub public_key : Pointer E.Key

  -- `EVP_PKEY_is_a` under either name of the algorithm.
  unfoldable pub is_ml_dsa_65 : E.Key → Bool
  is_ml_dsa_65 key = E.is_a key (text "mldsa65") || E.is_a key (text "ML-DSA-65")

  -- `if (key) EVP_PKEY_free(key);`
  abbrev pub free_key : Pointer E.Key → Outcome (Pointer E.Key)
  free_key null = returns null
  free_key (live key) = returns freed
  free_key freed = throws undefined

  abbrev set_private : Outcome (Pointer E.Key) → Signer → Outcome Bool × Signer
  set_private (returns p) s = (returns true, record s { private_key = p })
  set_private (throws e) s = (throws e, s)

  abbrev set_public : Outcome (Pointer E.Key) → Signer → Outcome Bool × Signer
  set_public (returns p) s = (returns true, record s { public_key = p })
  set_public (throws e) s = (throws e, s)

  abbrev pub free_private : Exec Signer Bool
  free_private s = set_private (free_key s.private_key) s

  abbrev pub free_public : Exec Signer Bool
  free_public s = set_public (free_key s.public_key) s

  abbrev pub pointer_of : Option E.Key → Pointer E.Key
  pointer_of none = null
  pointer_of (some key) = live key

  abbrev is_read : Option E.Key → Bool
  is_read none = false
  is_read (some key) = true

  -- `DilithiumSigner::~DilithiumSigner`
  unfoldable pub destroy : Exec Signer Bool
  destroy = free_private >>>= λ _. free_public

  abbrev pub generated : Option E.Key → Signer → Bool × Signer
  generated none s = (false, s)
  generated (some key) s =
      (true, record { private_key = live key; public_key = pointer_of (E.dup key) })

  -- `DilithiumSigner::generateKeyPair`; the keys that were there are not freed.
  unfoldable pub generate_key_pair : Signer → Bool × Signer
  generate_key_pair s =
      let name = text "mldsa65" in
      if not (E.key_ctx_new name)
      then (false, s)
      else if not (E.keygen_init name)
      then (false, s)
      else generated (E.generate name) s

  -- The key that was read is stored; its copy only if there is one.
  abbrev pub read_private : Option E.Key → Exec Signer Bool
  read_private none s = (returns false, record s { private_key = null })
  read_private (some key) s = (
    returns (is_read (E.dup key)),
    record { private_key = live key; public_key = pointer_of (E.dup key) },
  )

  -- `DilithiumSigner::loadPrivateKey`
  unfoldable pub load_private_key : Bytes → Exec Signer Bool
  load_private_key pem_path = elim (E.fopen (c_str pem_path)) [
    | none ↦ pure false
    | some contents ↦
        free_private >>>= λ _. free_public >>>= λ _. read_private (E.pem_read_private contents)
  ]

  abbrev pub read_public : Option E.Key → Exec Signer Bool
  read_public key s = (returns (is_read key), record s { public_key = pointer_of key })

  -- `DilithiumSigner::loadPublicKey`
  unfoldable pub load_public_key : Bytes → Exec Signer Bool
  load_public_key pem_path = elim (E.fopen (c_str pem_path)) [
    | none ↦ pure false
    | some contents ↦ free_public >>>= λ _. read_public (E.pem_read_pubkey contents)
  ]

  abbrev error : Bytes → Exception
  error what = runtime_error what

  abbrev signed : Option Bytes → Outcome Bytes
  signed none = throws (error (text "[DilithiumSigner] Signing failed"))
  signed (some signature) = returns signature

  -- `sign` with a key.
  unfoldable pub sign_with : E.Key → Bytes → Outcome Bytes
  sign_with key message =
      if not E.md_ctx_new
      then throws (error (text "[DilithiumSigner] EVP_MD_CTX_new failed"))
      else if not (E.sign_init key)
      then throws (error (text "[DilithiumSigner] DigestSignInit failed"))
      else elim (E.sign_size key message) [
        | none ↦ throws (error (text "[DilithiumSigner] DigestSign size query failed"))
        | some size ↦ signed (E.sign_run key message)
      ]

  -- `DilithiumSigner::sign`
  unfoldable pub sign : Signer → Bytes → Outcome Bytes
  sign s message = elim s.private_key [
    | null ↦ throws (error (text "[DilithiumSigner] No private key loaded"))
    | freed ↦ throws undefined
    | live key ↦ sign_with key message
  ]

  -- The verification with a key, in `verify` and in `verifyWithPEM`.
  unfoldable pub verify_with : E.Key → Bytes → Bytes → Bool
  verify_with key message signature =
      if not E.md_ctx_new
      then false
      else if not (E.verify_init key)
      then false
      else E.verify_run key signature message

  -- `DilithiumSigner::verify`
  unfoldable pub verify : Signer → Bytes → Bytes → Outcome Bool
  verify s message signature = elim s.public_key [
    | null ↦ throws (error (text "[DilithiumSigner] No public key loaded"))
    | freed ↦ throws undefined
    | live key ↦ returns (verify_with key message signature)
  ]

  -- `DilithiumSigner::verifyWithPEM`
  unfoldable pub verify_with_pem : Bytes → Bytes → Bytes → Outcome Bool
  verify_with_pem message signature public_key_pem =
      if not E.bio_new then returns false else elim (E.pem_read_pubkey public_key_pem) [
        | none ↦ throws (invalid_argument (text "Invalid PEM public key"))
        | some key ↦
            if not (is_ml_dsa_65 key)
            then throws (invalid_argument (text "Public key must be ML-DSA-65"))
            else returns (verify_with key message signature)
      ]

  abbrev pub text_or_empty : Option Bytes → Bytes
  text_or_empty none = []
  text_or_empty (some t) = t

  -- `DilithiumSigner::exportKeyPEM`
  unfoldable pub export_key_pem : Pointer E.Key → Bool → Outcome Bytes
  export_key_pem null is_private = returns []
  export_key_pem freed is_private = throws undefined
  export_key_pem (live key) is_private =
      if not E.bio_new
      then returns []
      else returns
          (text_or_empty (if is_private then E.pem_write_private key else E.pem_write_pubkey key))

  unfoldable pub export_private_key_pem : Signer → Outcome Bytes
  export_private_key_pem s = export_key_pem s.private_key true

  unfoldable pub export_public_key_pem : Signer → Outcome Bytes
  export_public_key_pem s = export_key_pem s.public_key false

  -- The comparison of the two keys as they are written again.
  unfoldable pub same_key : E.Key → Signer → Outcome Bool
  same_key key s =
      export_key_pem (live key) false >>= λ a. export_public_key_pem s >>= λ b. returns (str_eq a b)

  abbrev own_key : Option E.Key → Signer → Outcome Bool
  own_key none s = returns false
  own_key (some key) s = same_key key s

  -- `DilithiumSigner::isOwnPublicKey`
  unfoldable pub is_own_public_key : Signer → Bytes → Outcome Bool
  is_own_public_key s public_key_pem = elim s.public_key [
    | null ↦ returns false
    | _ ↦ if not E.bio_new then returns false else own_key (E.pem_read_pubkey public_key_pem) s
  ]
