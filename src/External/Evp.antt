-- ===== src/External/Evp.antt =====
-- OpenSSL's key and signature functions as src/crypto/DilithiumSigner.cpp calls them.
use pqc_api.Prelude.{ℕ, ◌≡◌, ◌≢◌, Bool, true, Option, some, [], All, Bytes, IsByte}

pub record Evp : Type 1 where
  pub Key : Type 0
  -- Allocations; `false` is the null pointer.
  pub md_ctx_new : Bool
  pub bio_new : Bool
  -- `EVP_PKEY_CTX_new_from_name`, `EVP_PKEY_keygen_init` and `EVP_PKEY_generate`
  pub key_ctx_new : Bytes → Bool
  pub keygen_init : Bytes → Bool
  pub generate : Bytes → Option Key
  pub dup : Key → Option Key
  pub is_a : Key → Bytes → Bool
  -- The contents of a file that `fopen` opens for reading.
  pub fopen : Bytes → Option Bytes
  pub pem_read_private : Bytes → Option Key
  pub pem_read_pubkey : Bytes → Option Key
  pub pem_write_private : Key → Option Bytes
  pub pem_write_pubkey : Key → Option Bytes
  -- `EVP_DigestSignInit_ex` and the two calls of `EVP_DigestSign`
  pub sign_init : Key → Bool
  pub sign_size : Key → Bytes → Option ℕ
  pub sign_run : Key → Bytes → Option Bytes
  -- `EVP_DigestVerifyInit_ex` and `EVP_DigestVerify(...) == 1` on the signature and the data
  pub verify_init : Key → Bool
  pub verify_run : Key → Bytes → Bytes → Bool

-- A signature verifies under a copy of the key that made it. ML-DSA-65 signatures are 3309 bytes.
pub record SignatureLaws (E : Evp) : Type 0 where
  pub sign_bytes :
      (k : E.Key) (message signature : Bytes)
      → E.sign_run k message ≡ some signature
      → All IsByte signature
  pub sign_nonempty :
      (k : E.Key) (message signature : Bytes)
      → E.sign_run k message ≡ some signature
      → signature ≢ []
  pub verify_init-dup : (k k' : E.Key) → E.dup k ≡ some k' → E.verify_init k' ≡ true
  pub verify-sign :
      (k k' : E.Key) (message signature : Bytes)
      → E.dup k ≡ some k'
      → E.sign_run k message ≡ some signature
      → E.verify_run k' signature message ≡ true

-- A public key that was written reads as a key of the same kind, which verifies the same signatures
-- and is written alike.
pub record PemLaws (E : Evp) : Type 0 where
  pub read_back : E.Key → Bytes → E.Key
  pub read-write :
      (k : E.Key) (pem : Bytes)
      → E.pem_write_pubkey k ≡ some pem
      → E.pem_read_pubkey pem ≡ some (read_back k pem)
  pub write-read_back :
      (k : E.Key) (pem : Bytes)
      → E.pem_write_pubkey k ≡ some pem
      → E.pem_write_pubkey (read_back k pem) ≡ some pem
  pub is_a-read_back :
      (k : E.Key) (pem name : Bytes)
      → E.pem_write_pubkey k ≡ some pem
      → E.is_a (read_back k pem) name ≡ E.is_a k name
  pub verify_init-read_back :
      (k : E.Key) (pem : Bytes)
      → E.pem_write_pubkey k ≡ some pem
      → E.verify_init (read_back k pem) ≡ E.verify_init k
  pub verify_run-read_back :
      (k : E.Key) (pem signature message : Bytes)
      → E.pem_write_pubkey k ≡ some pem
      → E.verify_run (read_back k pem) signature message ≡ E.verify_run k signature message

-- A private key that was written reads as a key again.
pub record PrivatePemLaws (E : Evp) : Type 0 where
  pub restored : E.Key → E.Key
  pub read-write :
      (k : E.Key) (pem : Bytes)
      → E.pem_write_private k ≡ some pem
      → E.pem_read_private pem ≡ some (restored k)
