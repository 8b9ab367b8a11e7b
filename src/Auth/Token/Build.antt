-- ===== src/Auth/Token/Build.antt =====
-- `AuthManager::buildToken` of src/auth/AuthManager.cpp.
use pqc_api.Prelude.{ℕ, ◌∷◌, ◌++◌, Bytes, text}
use pqc_api.Prelude.Int.{ℤ, pos, ◌+ℤ◌}
use pqc_api.Std.Outcome.{Outcome, json_error, returns, or_throw, ◌>>=◌}
use pqc_api.External.Openssl.{Openssl}
use pqc_api.External.Json.{Json, str, num, obj, Fields, end, field}
use pqc_api.Auth.Base64Url.{base64url_encode}

-- TOKEN_TTL_SECONDS
abbrev pub token_ttl_seconds : ℤ
token_ttl_seconds = pos 3600

abbrev pub dot : ℕ
dot = b'.'

-- h + "." + p
abbrev pub signing_input : Bytes → Bytes → Bytes
signing_input h p = h ++ dot ∷ p

abbrev pub header : Fields
header = field (text "alg") (str (text "HS256")) (field (text "typ") (str (text "JWT")) end)

-- The times are `time_t` seconds.
abbrev pub payload : ℤ → Bytes → Bytes → Fields
payload now user_id session_id = field (text "sub") (str user_id) (
    field (text "sid") (str session_id)
      (field (text "iat") (num now) (field (text "exp") (num (now +ℤ token_ttl_seconds)) end)))

module _ (O : Openssl) (J : Json) (secret_key : Bytes) where
  -- The token of two dumped documents.
  unfoldable pub seal : Bytes → Bytes → Bytes
  seal header_text payload_text =
      let h = base64url_encode O header_text in
      let p = base64url_encode O payload_text in
      signing_input h p ++ dot ∷ base64url_encode O (O.hmac_sha256 secret_key (signing_input h p))

  unfoldable pub build_token : ℤ → Bytes → Bytes → Outcome Bytes
  unfolding seal
  build_token now user_id session_id = do
    header_text ← or_throw json_error (J.dump (obj header))
    payload_text ← or_throw json_error (J.dump (obj (payload now user_id session_id)))
    returns (seal header_text payload_text)
