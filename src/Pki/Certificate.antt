-- ===== src/Pki/Certificate.antt =====
-- src/pki/Certificate.cpp. A certificate is the null pointer or a parsed X.509 certificate.
use pqc_api.Prelude.{Bool, true, false, ◌&&◌, not, Option, none, some, [], Bytes}
use pqc_api.Prelude.Int.{ℤ, pos}
use pqc_api.Std.Strings.{c_str}
use pqc_api.External.X509.{X509}

module _ (X : X509) where
  abbrev pub Certificate : Type 0
  Certificate = Option X.Cert

  abbrev is_loaded : Certificate → Bool
  is_loaded none = false
  is_loaded (some c) = true

  -- The certificate that was there is freed once the file is open.
  unfoldable pub load_from_pem : Bytes → Certificate → Bool × Certificate
  load_from_pem pem_path cert = elim (X.fopen (c_str pem_path)) [
    | none ↦ (false, cert)
    | some contents ↦ (is_loaded (X.pem_read contents), X.pem_read contents)
  ]

  unfoldable pub is_expired : Certificate → ℤ → Bool
  is_expired none now = true
  is_expired (some c) now = X.not_after_passed c now

  unfoldable pub is_valid : Certificate → ℤ → Bool
  unfolding is_expired
  is_valid cert now = is_loaded cert && not (is_expired cert now)

  abbrev verified_by : X.Cert → Option X.Key → Bool
  verified_by c none = false
  verified_by c (some key) = X.verify c key

  unfoldable pub verify_signature : Certificate → Certificate → Bool
  verify_signature none issuer = false
  verify_signature (some c) none = false
  verify_signature (some c) (some i) = verified_by c (X.get_pubkey i)

  unfoldable pub get_subject : Certificate → Bytes
  get_subject none = []
  get_subject (some c) = X.subject_oneline c

  unfoldable pub get_serial_number : Certificate → Bytes
  get_serial_number none = []
  get_serial_number (some c) = X.serial_hex c

  unfoldable pub get_not_after : Certificate → ℤ
  get_not_after none = pos 0
  get_not_after (some c) = X.not_after_mktime c

  unfoldable pub get_public_key : Certificate → Option X.Key
  get_public_key none = none
  get_public_key (some c) = X.get_pubkey c
