-- ===== src/Pki/Ocsp/Delivered.antt =====
-- `checkStatus` of src/pki/OCSPClient.cpp, from the request to the status.
use pqc_api.Prelude.{
  ◌≡◌, ◌≢◌, ◌↔◌, refl, sym, ◌∙◌, inl, inr, Option, none, some, List, [], ◌∷◌, ◌++◌, Bytes,
  append_assoc, append-nil, Option-cases,
}
use pqc_api.External.X509.{X509}
use pqc_api.External.Ocsp.{Ocsp}
use pqc_api.Pki.Certificate.{Certificate}
use pqc_api.Pki.Ocsp.{
  good, received, build_request, answered, send, check_status, IsGood, parse_response_good_iff,
}

-- The pieces as one text.
abbrev pub whole : List Bytes → Bytes
whole [] = []
whole (piece ∷ pieces) = piece ++ whole pieces

received-whole :
    (pieces : List Bytes) (buffer : Bytes) → received buffer pieces ≡ buffer ++ whole pieces
unfolding received
received-whole [] buffer = sym (append-nil buffer)
received-whole (piece ∷ pieces) buffer =
    received-whole pieces (buffer ++ piece) ∙ append_assoc buffer piece (whole pieces)

module _ (X : X509) (C : Ocsp X) (responder_url : Bytes) (cert issuer : Certificate X)
    (net : C.Net) where
  -- A request that could be built, and the pieces of a good answer to it.
  pub record Delivered : Type 0 where
    pub request : Bytes
    pub built : C.request_der cert issuer ≡ some request
    pub filled : request ≢ []
    pub pieces : List Bytes
    pub delivered : (C.post responder_url request net).0 ≡ some pieces
    pub says : IsGood X C (whole pieces)

  answered_good :
      (request : Bytes) (found : Option (List Bytes))
      → answered X C found ≡ good
      → (pieces : List Bytes) × (found ≡ some pieces) × IsGood X C (whole pieces)
  answered_good request none e = cc
  answered_good request (some pieces) e = (
    pieces,
    refl,
    (parse_response_good_iff X C (whole pieces)).0 (rw (received-whole pieces []) at e),
  )

  sent_good :
      (request : Bytes)
      → C.request_der cert issuer ≡ some request
      → (send X C responder_url request net).0 ≡ good
      → Delivered
  sent_good [] built e = cc
  sent_good (b ∷ request) built e =
      let (pieces, delivered, says) = answered_good (b ∷ request) _ e in
      record {
        request = b ∷ request;
        built = built;
        filled = λ e. cc;
        pieces = pieces;
        delivered = delivered;
        says = says;
      }

  send_good :
      (request : Bytes) (pieces : List Bytes)
      → request ≢ []
      → (C.post responder_url request net).0 ≡ some pieces
      → IsGood X C (whole pieces)
      → (send X C responder_url request net).0 ≡ good
  send_good [] pieces filled delivered says = absurd (filled refl)
  send_good (b ∷ request) pieces filled delivered says =
      rw (delivered, received-whole pieces []) ((parse_response_good_iff X C (whole pieces)).1 says)

  -- `checkStatus` reports good exactly if the request can be built, the responder is reached, and the
  -- pieces that it sends, however the answer is cut, are together a successful response with a basic
  -- response whose first single response says good, or that has no single response at all.
  pub check_status_good_iff :
      ((check_status X C responder_url cert issuer net).0 ≡ good) ↔ Delivered
  unfolding check_status build_request
  check_status_good_iff = (
    λ e. elim (Option-cases (C.request_der cert issuer)) [
      | inl failed ↦ let wrong = rw failed at e in cc
      | inr (request, built) ↦ sent_good request built (rw built at e)
    ],
    λ d. rw d.built (send_good d.request d.pieces d.filled d.delivered d.says),
  )
