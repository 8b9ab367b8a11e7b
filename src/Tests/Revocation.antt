-- ===== src/Tests/Revocation.antt =====
-- A responder that knows one reply.
use pqc_api.Prelude.{◌≡◌, ◌↔◌, none, some, [], ◌∷◌, ltb, ◌-◌, ◌/◌, if◌then◌else◌, text}
use pqc_api.Prelude.Int.{ℤ, pos, pos_part}
use pqc_api.External.Ocsp.{Ocsp}
use pqc_api.Pki.Ocsp.{good, check_status}
use pqc_api.Pki.Ocsp.Delivered.{Delivered, check_status_good_iff}
use pqc_api.Pki.Revocation.{Checker, default_cache_ttl_seconds, ask, check_cert, check_cert-ask}
use pqc_api.Tests.Endpoints.{x509, certificate}

-- The reply is its own single status, and 9 is a reply without one.
abbrev ocsp : Ocsp x509
ocsp = record {
  request_der = λ cert issuer. some (text "request");
  Net = Unit;
  post = λ url request net. (some ((0 ∷ []) ∷ []), net);
  Reply = ℤ;
  Basic = ℤ;
  Single = ℤ;
  d2i_response = λ s. elim s [ [] ↦ none | b ∷ r ↦ some (pos b) ];
  response_status = λ r. 0;
  get1_basic = λ r. some r;
  first_single = λ b. if ltb 8 (pos_part b) then none else some b;
  single_status = λ n. n;
}

abbrev checker : Checker x509 ocsp (text "http://ocsp:8080") default_cache_ttl_seconds
checker = record { cache = λ key. none; net = tt }

check_cert-ask_example :
    check_cert x509 ocsp
      (text "http://ocsp:8080")
      default_cache_ttl_seconds
      60000000000
      60000000001
      certificate
      certificate
      (ask x509 ocsp
        (text "http://ocsp:8080")
        default_cache_ttl_seconds
        5
        certificate
        certificate
        checker).1
    ≡ (if ltb ((60000000000 - 5) / 1000000000) default_cache_ttl_seconds
        then ask x509 ocsp
            (text "http://ocsp:8080")
            default_cache_ttl_seconds
            5
            certificate
            certificate
            checker
        else ask x509 ocsp
            (text "http://ocsp:8080")
            default_cache_ttl_seconds
            60000000001
            certificate
            certificate
            (ask x509 ocsp
              (text "http://ocsp:8080")
              default_cache_ttl_seconds
              5
              certificate
              certificate
              checker).1)
check_cert-ask_example =
    check_cert-ask x509 ocsp (text "http://ocsp:8080") default_cache_ttl_seconds 60000000000 5
      60000000001 certificate certificate checker

check_status_good_iff_example :
    ((check_status x509 ocsp (text "http://ocsp:8080") certificate certificate tt).0 ≡ good)
    ↔ Delivered x509 ocsp (text "http://ocsp:8080") certificate certificate tt
check_status_good_iff_example =
    check_status_good_iff x509 ocsp (text "http://ocsp:8080") certificate certificate tt
