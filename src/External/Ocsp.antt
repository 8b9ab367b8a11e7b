-- ===== src/External/Ocsp.antt =====
-- OpenSSL's OCSP functions and libcurl as src/pki/OCSPClient.cpp calls them.
use pqc_api.Prelude.{ℕ, Option, List, Bytes}
use pqc_api.Prelude.Int.{ℤ}
use pqc_api.External.X509.{X509}

pub record Ocsp (X : X509) : Type 1 where
  -- The DER text of a request for a certificate and its issuer; `none` if any step fails.
  pub request_der : Option X.Cert → Option X.Cert → Option Bytes
  -- The network: the pieces of the answer that a POST to a URL hands to the write function, in their
  -- order, and `none` if the result is not CURLE_OK.
  pub Net : Type 0
  pub post : Bytes → Bytes → Net → Option (List Bytes) × Net
  pub Reply : Type 0
  pub Basic : Type 0
  pub Single : Type 0
  -- `d2i_OCSP_RESPONSE`, `OCSP_response_status` and `OCSP_response_get1_basic`
  pub d2i_response : Bytes → Option Reply
  pub response_status : Reply → ℕ
  pub get1_basic : Reply → Option Basic
  -- `OCSP_resp_get0(basic, 0)` and `OCSP_single_get0_status`
  pub first_single : Basic → Option Single
  pub single_status : Single → ℤ
