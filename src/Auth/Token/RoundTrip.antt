-- ===== src/Auth/Token/RoundTrip.antt =====
-- The token that `build_token` writes, read back by `parse_token` before and after it expires.
use pqc_api.Prelude.{
  ◌≡◌, ◌≢◌, refl, ap, ◌∙◌, none, some, [], arith, length, All, All-mono, if◌then◌else◌, Lacks,
  Bytes, IsByte, text, str_eq,
}
use pqc_api.Prelude.Int.{ℤ, ◌+ℤ◌, ltb_ℤ}
use pqc_api.Std.Outcome.{returns}
use pqc_api.External.Openssl.{Openssl, Base64Laws, MacLaws}
use pqc_api.External.Json.{Json, JsonLaws, Dumped, IsAscii, IsFlat, str, num, find}
use pqc_api.Auth.Base64Url.{base64url_encode}
use pqc_api.Auth.Base64Url.RoundTrip.{base64url_encode-IsUrl, base64url_decode-encode}
use pqc_api.Auth.Token.Build.{
  dot, signing_input, token_ttl_seconds, header, payload, seal, build_token,
}
use pqc_api.Auth.Token.Parse.{read_claims, read_payload, parse_token}
use pqc_api.Auth.Token.Split.{split_token-append}
use pqc_api.Auth.Token.Authentic.{signature_matches_iff}

header-IsFlat : IsFlat header
unfolding text
header-IsFlat = omega arith

payload-IsFlat :
    (now : ℤ) (user_id session_id : Bytes)
    → IsAscii user_id
    → IsAscii session_id
    → IsFlat (payload now user_id session_id)
unfolding text
payload-IsFlat now user_id session_id u s = (omega arith, u, (omega arith, s, omega arith))

module _ (now : ℤ) (user_id session_id : Bytes) where
  find-exp :
      find (text "exp") (payload now user_id session_id) ≡ some (num (now +ℤ token_ttl_seconds))
  unfolding text str_eq
  find-exp = refl

  find-sub : find (text "sub") (payload now user_id session_id) ≡ some (str user_id)
  unfolding text str_eq
  find-sub = refl

  find-sid : find (text "sid") (payload now user_id session_id) ≡ some (str session_id)
  unfolding text str_eq
  find-sid = refl

module _ (O : Openssl) (J : Json) (secret_key : Bytes) (B : Base64Laws O) (M : MacLaws O) where
  encode-Lacks : (s : Bytes) → All IsByte s → Lacks dot (base64url_encode O s)
  encode-Lacks s b = All-mono (λ c h. ground arith) _ (base64url_encode-IsUrl O B s b)

  -- The MAC of a sealed token matches, so only its claims are left to read.
  parse_token-seal :
      (now : ℤ) (header_text payload_text : Bytes)
      → All IsByte header_text
      → All IsByte payload_text
      → parse_token O J secret_key now (seal O J secret_key header_text payload_text)
        ≡ read_payload O J now (base64url_encode O payload_text)
  unfolding parse_token seal
  parse_token-seal now header_text payload_text hb pb =
      let h = base64url_encode O header_text in
      let p = base64url_encode O payload_text in
      let mac = O.hmac_sha256 secret_key (signing_input h p) in
      let mac_ne_nil : mac ≢ [] =
        λ e. ground (arith, M.mac_length secret_key (signing_input h p), ap length e) in
      rw (
        split_token-append h p (base64url_encode O mac) (encode-Lacks header_text hb)
            (encode-Lacks payload_text pb),
        (signature_matches_iff O J secret_key M h p (base64url_encode O mac)).1 (
            base64url_decode-encode O B mac (M.mac_bytes secret_key (signing_input h p))
              mac_ne_nil),
      )

  module _ (L : JsonLaws J) (now : ℤ) (user_id session_id : Bytes) where
    -- Reading the payload again, at any time.
    read_payload-payload :
        (d : Dumped J (payload now user_id session_id)) (later : ℤ)
        → read_payload O J later (base64url_encode O d.text)
          ≡ (if ltb_ℤ (now +ℤ token_ttl_seconds) later then none else some (user_id, session_id))
    unfolding read_payload read_claims
    read_payload-payload d later =
        let (v, exp, e) =
          d.reads.long (text "exp") (now +ℤ token_ttl_seconds) (find-exp now user_id session_id) in
        let (sub, at_sub, user) =
          d.reads.string (text "sub") user_id (find-sub now user_id session_id) in
        let (sid, at_sid, session) =
          d.reads.string (text "sid") session_id (find-sid now user_id session_id) in
        rw (
          base64url_decode-encode O B d.text d.bytes d.nonempty,
          d.parsed,
          exp,
          e,
          at_sub,
          user,
          at_sid,
          session,
        )

    -- For ASCII ids, `build_token` returns a token; `parse_token` under the same key returns these
    -- ids from it up to the expiry time and refuses the token after it. Base64, the MAC and flat
    -- JSON objects are taken to behave as documented.
    pub parse_token-build_token :
        IsAscii user_id
        → IsAscii session_id
        → (token : Bytes) × (build_token O J secret_key now user_id session_id ≡ returns token)
          × ((later : ℤ)
              → parse_token O J secret_key later token ≡ (
                  if ltb_ℤ (now +ℤ token_ttl_seconds) later
                  then none
                  else some (user_id, session_id)))
    unfolding build_token
    parse_token-build_token u s =
        let dh = L.round_trip header header-IsFlat in
        let dp =
          L.round_trip (payload now user_id session_id)
            (payload-IsFlat now user_id session_id u s) in
        (
          seal O J secret_key dh.text dp.text,
          rw (dh.dumped, dp.dumped),
          λ later.
              parse_token-seal later dh.text dp.text dh.bytes dp.bytes
              ∙ read_payload-payload dp later,
        )
