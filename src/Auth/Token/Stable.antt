-- ===== src/Auth/Token/Stable.antt =====
-- The claims of an accepted token do not depend on the time of reading.
use pqc_api.Prelude.{◌≡◌, ◌∙◌, sym, Option, some, Bytes, text}
use pqc_api.Prelude.Int.{ℤ, ltb_ℤ}
use pqc_api.Std.Optional.{◌>>=◌, >>=-eq-some, refuse-eq-some, require-eq-some}
use pqc_api.External.Openssl.{Openssl}
use pqc_api.External.Json.{Json}
use pqc_api.Auth.Base64Url.{base64url_decode}
use pqc_api.Auth.Token.Parse.{
  split_token, signature_matches, read_claims, read_payload, parse_token,
}
use mathlib.Core.Option.{some-injective}

module _ (O : Openssl) (J : Json) where
  -- The claims behind a token's second part, whatever its signature and its expiry time.
  abbrev claims_in : Bytes × Bytes × Bytes → Option (Bytes × Bytes)
  claims_in (h, p, sig) = J.parse (base64url_decode O p) >>= read_claims O J

  abbrev claims_of : Bytes → Option (Bytes × Bytes)
  claims_of token = split_token token >>= claims_in

  module _ (secret_key : Bytes) where
    claims_of-parse_token :
        (now : ℤ) (token : Bytes) (c : Bytes × Bytes)
        → parse_token O J secret_key now token ≡ some c
        → claims_of token ≡ some c
    unfolding parse_token read_payload
    claims_of-parse_token now token c e =
        let ((h, p, sig), parts, e1) = >>=-eq-some (split_token token) _ e in
        let (matches, e2) = require-eq-some (signature_matches O secret_key h p sig) _ e1 in
        let (v, parsed, e3) = >>=-eq-some (J.parse (base64url_decode O p)) _ e2 in
        let (expiry, exp, e4) = >>=-eq-some (J.index v (text "exp") >>= J.get_long) _ e3 in
        let (in_time, e5) = refuse-eq-some (ltb_ℤ expiry now) _ e4 in rw (parts, parsed) e5

    -- Two readings that both accept a token agree on its user and its session.
    pub parse_token_agree :
        (now later : ℤ) (token : Bytes) (c d : Bytes × Bytes)
        → parse_token O J secret_key now token ≡ some c
        → parse_token O J secret_key later token ≡ some d
        → c ≡ d
    parse_token_agree now later token c d e e' =
        some-injective c d
          (sym (claims_of-parse_token now token c e) ∙ claims_of-parse_token later token d e')
