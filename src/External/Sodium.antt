-- ===== src/External/Sodium.antt =====
-- libsodium as src/auth/AuthManager.cpp calls it: Argon2id password hashing.
use pqc_api.Prelude.{◌<◌, ◌≡◌, ◌≢◌, All, Bool, true, Option, some, Bytes, length}

pub record Sodium : Type 0 where
  -- `crypto_pwhash_str` with its random salt; `none` if it does not return 0.
  pub pwhash_str : Bytes → Bytes → Option Bytes
  -- `crypto_pwhash_str_verify(hash, password) == 0`
  pub pwhash_str_verify : Bytes → Bytes → Bool

pub record PasswordLaws (S : Sodium) : Type 0 where
  pub hash_text :
      (salt password hash : Bytes)
      → S.pwhash_str salt password ≡ some hash
      → All (λ c. (c < 128) × (c ≢ 0)) hash
  -- crypto_pwhash_STRBYTES counts the NUL.
  pub hash_length :
      (salt password hash : Bytes) → S.pwhash_str salt password ≡ some hash → length hash < 128
  pub verify-hash :
      (salt password hash : Bytes)
      → S.pwhash_str salt password ≡ some hash
      → S.pwhash_str_verify hash password ≡ true
