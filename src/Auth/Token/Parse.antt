-- ===== src/Auth/Token/Parse.antt =====
-- `AuthManager::parseToken` of src/auth/AuthManager.cpp.
use pqc_api.Prelude.{
  suc, ◌-◌, Bool, ◌&&◌, Option, none, some, ◌==◌, if◌then◌else◌, length, take, drop, Bytes, text,
}
use pqc_api.Prelude.Int.{ℤ, ltb_ℤ}
use pqc_api.Std.Strings.{find_char, find_char_from}
use pqc_api.Std.Optional.{◌>>=◌}
use pqc_api.External.Openssl.{Openssl}
use pqc_api.External.Json.{Json}
use pqc_api.Auth.Base64Url.{base64url_decode}
use pqc_api.Auth.Token.Build.{dot, signing_input}

-- The three parts of a token, cut at its first two dots.
unfoldable pub split_token : Bytes → Option (Bytes × Bytes × Bytes)
unfolding find_char_from
split_token token = do
  p1 ← find_char dot token
  p2 ← find_char_from dot token (suc p1)
  some (take p1 token, take (p2 - p1 - 1) (drop (suc p1) token), drop (suc p2) token)

module _ (O : Openssl) (secret_key : Bytes) where
  -- The comparison of the decoded signature with the expected digest.
  unfoldable pub signature_matches : Bytes → Bytes → Bytes → Bool
  signature_matches h p sig =
      let expected = O.hmac_sha256 secret_key (signing_input h p) in
      let sig_decoded = base64url_decode O sig in
      (length sig_decoded == length expected)
      && O.memcmp_is_zero sig_decoded expected (length expected)

module _ (O : Openssl) (J : Json) where
  unfoldable pub read_claims : J.Value → Option (Bytes × Bytes)
  read_claims v = do
    user_id ← J.index v (text "sub") >>= J.get_string
    session_id ← J.index v (text "sid") >>= J.get_string
    some (user_id, session_id)

  -- The `try` block: `none` where it returns false or anything in it throws.
  unfoldable pub read_payload : ℤ → Bytes → Option (Bytes × Bytes)
  read_payload now p = do
    v ← J.parse (base64url_decode O p)
    expiry ← J.index v (text "exp") >>= J.get_long
    if ltb_ℤ expiry now then none else read_claims v

module _ (O : Openssl) (J : Json) (secret_key : Bytes) where
  abbrev pub check_parts : ℤ → Bytes × Bytes × Bytes → Option (Bytes × Bytes)
  check_parts now (h, p, sig) =
      if signature_matches O secret_key h p sig then read_payload O J now p else none

  -- The user and the session of a token, where `parseToken` returns true.
  unfoldable pub parse_token : ℤ → Bytes → Option (Bytes × Bytes)
  parse_token now token = split_token token >>= check_parts now
