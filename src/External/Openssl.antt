-- ===== src/External/Openssl.antt =====
-- OpenSSL as src/auth/AuthManager.cpp and src/api/Controllers.cpp call it: the base64 filter BIO
-- without line breaks, HMAC-SHA256, SHA-256 and the constant-time comparison.
use pqc_api.Prelude.{
  ℕ, ◌+◌, ◌%◌, ◌≤◌, ◌≡◌, ◌≢◌, ◌↔◌, Bool, true, ◌&&◌, ◌||◌, Option, some, [], ◌++◌, leb, ◌==◌,
  length, replicate, All, Bytes, IsByte,
}

pub record Openssl : Type 0 where
  -- The text in the memory BIO after writing the bytes through `BIO_f_base64` and flushing.
  pub bio_encode : Bytes → Bytes
  -- The bytes that one `BIO_read` of as many bytes as the text has delivers; `none` if the call
  -- returns a negative number.
  pub bio_decode : Bytes → Option Bytes
  -- Key and message.
  pub hmac_sha256 : Bytes → Bytes → Bytes
  pub sha256 : Bytes → Bytes
  -- `CRYPTO_memcmp(a, b, n) == 0`.
  pub memcmp_is_zero : Bytes → Bytes → ℕ → Bool

-- A character of the base64 alphabet, without the padding.
abbrev pub is_base64 : ℕ → Bool
is_base64 c =
    (leb b'A' c && leb c b'Z')
    || (leb b'a' c && leb c b'z')
    || (leb b'0' c && leb c b'9')
    || (c == b'+')
    || (c == b'/')

abbrev pub IsBase64 : ℕ → Type 0
IsBase64 c = is_base64 c ≡ true

-- A base64 text: characters of the alphabet and at most two `=`, four to a group.
pub record IsBase64Text (t : Bytes) : Type 0 where
  pub body : Bytes
  pub pad : ℕ
  pub form : t ≡ body ++ replicate pad b'='
  pub alphabet : All IsBase64 body
  pub short : pad ≤ 2
  pub grouped : (length body + pad) % 4 ≡ 0

-- RFC 4648, which the filter documents.
pub record Base64Laws (O : Openssl) : Type 0 where
  pub encoded : (s : Bytes) → All IsByte s → IsBase64Text (O.bio_encode s)
  pub decode-encode : (s : Bytes) → All IsByte s → s ≢ [] → O.bio_decode (O.bio_encode s) ≡ some s

pub record MacLaws (O : Openssl) : Type 0 where
  pub mac_length : (key message : Bytes) → length (O.hmac_sha256 key message) ≡ 32
  pub mac_bytes : (key message : Bytes) → All IsByte (O.hmac_sha256 key message)
  pub memcmp_iff :
      (a b : Bytes) → length a ≡ length b → (O.memcmp_is_zero a b (length b) ≡ true) ↔ (a ≡ b)

pub record DigestLaws (O : Openssl) : Type 0 where
  pub sha256_bytes : (s : Bytes) → All IsByte (O.sha256 s)
