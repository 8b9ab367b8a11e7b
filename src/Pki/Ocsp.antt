-- ===== src/Pki/Ocsp.antt =====
-- src/pki/OCSPClient.cpp
pub mod Delivered
use pqc_api.Prelude.{
  ◌≡◌, ◌≢◌, ◌↔◌, ◌⊎◌, refl, inl, inr, Option, none, some, List, [], ◌∷◌, ◌++◌, ◌==◌, arith,
  if◌then◌else◌, Bytes, Bool-cases, Option-cases,
}
use pqc_api.Prelude.Int.{ℤ, pos, eq_ℤ, eq_ℤ_iff}
use pqc_api.External.X509.{X509}
use pqc_api.External.Ocsp.{Ocsp}
use pqc_api.Pki.Certificate.{Certificate}

pub data CertStatus : Type 0 where
  good revoked unknown error : CertStatus

-- The `switch` on V_OCSP_CERTSTATUS_GOOD (0) and V_OCSP_CERTSTATUS_REVOKED (1).
abbrev pub status_of : ℤ → CertStatus
status_of n = if eq_ℤ n (pos 0) then good else if eq_ℤ n (pos 1) then revoked else unknown

-- `OCSPClient::curlWriteCallback` on its buffer.
abbrev pub curl_write_callback : Bytes → Bytes → Bytes
curl_write_callback buffer bytes = buffer ++ bytes

-- What is in the buffer when libcurl has called it for each piece.
unfoldable pub received : Bytes → List Bytes → Bytes
received buffer [] = buffer
received buffer (piece ∷ pieces) = received (curl_write_callback buffer piece) pieces

module _ (X : X509) (C : Ocsp X) where
  abbrev text_or_empty : Option Bytes → Bytes
  text_or_empty none = []
  text_or_empty (some t) = t

  -- `OCSPClient::buildRequest`, empty if it fails.
  unfoldable pub build_request : Certificate X → Certificate X → Bytes
  build_request cert issuer = text_or_empty (C.request_der cert issuer)

  -- Without a first response `cert_status` keeps the 0 that it starts with.
  abbrev pub first_status : Option C.Single → ℤ
  first_status none = pos 0
  first_status (some single) = C.single_status single

  abbrev pub basic_status : Option C.Basic → CertStatus
  basic_status none = error
  basic_status (some basic) = status_of (first_status (C.first_single basic))

  -- OCSP_RESPONSE_STATUS_SUCCESSFUL is 0.
  abbrev pub reply_status : Option C.Reply → CertStatus
  reply_status none = error
  reply_status (some reply) =
      if C.response_status reply == 0 then basic_status (C.get1_basic reply) else error

  -- `OCSPClient::parseResponse`
  unfoldable pub parse_response : Bytes → CertStatus
  parse_response [] = error
  parse_response (b ∷ response_data) = reply_status (C.d2i_response (b ∷ response_data))

  abbrev pub answered : Option (List Bytes) → CertStatus
  answered none = error
  answered (some pieces) = parse_response (received [] pieces)

  abbrev pub send : Bytes → Bytes → C.Net → CertStatus × C.Net
  send responder_url [] net = (error, net)
  send responder_url (b ∷ req_der) net =
      let (reply, net') = C.post responder_url (b ∷ req_der) net in (answered reply, net')

  -- `OCSPClient::checkStatus`
  unfoldable pub check_status : Bytes → Certificate X → Certificate X → C.Net → CertStatus × C.Net
  check_status responder_url cert issuer net = send responder_url (build_request cert issuer) net

  -- A successful OCSP response whose first single response, if it has one, says good.
  pub record IsGood (response_data : Bytes) : Type 0 where
    pub reply : C.Reply
    pub basic : C.Basic
    pub nonempty : response_data ≢ []
    pub parsed : C.d2i_response response_data ≡ some reply
    pub successful : C.response_status reply ≡ 0
    pub has_basic : C.get1_basic reply ≡ some basic
    pub says :
        (C.first_single basic ≡ none)
        ⊎ ((single : C.Single) × (C.first_single basic ≡ some single)
            × (C.single_status single ≡ pos 0))

  status_of-good : (n : ℤ) → status_of n ≡ good → n ≡ pos 0
  status_of-good n e = elim (Bool-cases (eq_ℤ n (pos 0))) [
    | inl zero_status ↦ (eq_ℤ_iff n (pos 0)).0 zero_status
    | inr other ↦ elim (Bool-cases (eq_ℤ n (pos 1))) [
      | inl one_status ↦ let wrong = rw (other, one_status) at e in cc
      | inr rest ↦ let wrong = rw (other, rest) at e in cc
    ]
  ]

  -- `parseResponse` reports good exactly for a successful response with a basic response whose
  -- first single response says good, or that has no single response at all.
  pub parse_response_good_iff :
      (response_data : Bytes) → (parse_response response_data ≡ good) ↔ IsGood response_data
  unfolding parse_response
  parse_response_good_iff [] = (λ e. cc, λ g. absurd (g.nonempty refl))
  parse_response_good_iff (b ∷ s) = (
    λ e. elim (Option-cases (C.d2i_response (b ∷ s))) [
      | inl bad ↦ let wrong = rw bad at e in cc
      | inr (reply, parsed) ↦ elim (Bool-cases (C.response_status reply == 0)) [
        | inr failed ↦ let wrong = rw (parsed, failed) at e in cc
        | inl ok ↦ elim (Option-cases (C.get1_basic reply)) [
          | inl missing ↦ let wrong = rw (parsed, ok, missing) at e in cc
          | inr (basic, has_basic) ↦ record {
            reply = reply;
            basic = basic;
            nonempty = λ e. cc;
            parsed = parsed;
            successful = ground arith;
            has_basic = has_basic;
            says =
                let stated = rw (parsed, ok, has_basic) at e in
                elim (Option-cases (C.first_single basic)) [
                  | inl nothing ↦ inl nothing
                  | inr (single, first) ↦
                      let said = rw first at stated in inr (single, first, status_of-good _ said)
                ];
          }
        ]
      ]
    ],
    λ g. elim g.says [
      | inl nothing ↦ rw (g.parsed, g.successful, g.has_basic, nothing) refl
      | inr (single, first, said) ↦ rw (g.parsed, g.successful, g.has_basic, first, said) refl
    ],
  )
