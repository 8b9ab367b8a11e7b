-- ===== src/External/X509.antt =====
-- OpenSSL's certificates as src/pki/Certificate.cpp reads them, and the C library's clock functions.
use pqc_api.Prelude.{Bool, Option, Bytes}
use pqc_api.Prelude.Int.{ℤ}

pub record X509 : Type 1 where
  pub Cert : Type 0
  pub Key : Type 0
  -- The contents of a file that `fopen` opens for reading.
  pub fopen : Bytes → Option Bytes
  pub pem_read : Bytes → Option Cert
  -- `X509_cmp_current_time(notAfter) < 0` at a time
  pub not_after_passed : Cert → ℤ → Bool
  -- `mktime` of the broken-down `notAfter`
  pub not_after_mktime : Cert → ℤ
  pub subject_oneline : Cert → Bytes
  -- `BN_bn2hex` of the serial number
  pub serial_hex : Cert → Bytes
  pub get_pubkey : Cert → Option Key
  -- `X509_verify(...) == 1`
  pub verify : Cert → Key → Bool
  -- `strftime` with the format "%Y-%m-%dT%H:%M:%SZ" of `gmtime`
  pub iso_8601 : ℤ → Bytes
