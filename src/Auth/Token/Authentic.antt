-- ===== src/Auth/Token/Authentic.antt =====
-- What a token that `parse_token` accepts is.
use pqc_api.Prelude.{◌≡◌, ap, ◌↔◌, true, some, ◌∷◌, ◌++◌, arith, length, Lacks, Bytes, text}
use pqc_api.Prelude.Int.{ℤ, ◌≤ℤ◌, ltb_ℤ}
use pqc_api.Std.Optional.{◌>>=◌, >>=-eq-some, refuse-eq-some, require-eq-some}
use pqc_api.External.Openssl.{Openssl, MacLaws}
use pqc_api.External.Json.{Json}
use pqc_api.Auth.Base64Url.{base64url_decode}
use pqc_api.Auth.Token.Build.{dot, signing_input}
use pqc_api.Auth.Token.Parse.{
  split_token, signature_matches, read_claims, read_payload, parse_token,
}
use pqc_api.Auth.Token.Split.{split_token-append, split_token_sound}

module _ (O : Openssl) (J : Json) (secret_key : Bytes) where
  -- The claims in the payload `p`, not expired at `now`.
  pub record Claims (now : ℤ) (p user_id session_id : Bytes) : Type 0 where
    pub value : J.Value
    pub expiry : ℤ
    pub parsed : J.parse (base64url_decode O p) ≡ some value
    pub exp : (J.index value (text "exp") >>= J.get_long) ≡ some expiry
    pub unexpired : now ≤ℤ expiry
    pub sub : (J.index value (text "sub") >>= J.get_string) ≡ some user_id
    pub sid : (J.index value (text "sid") >>= J.get_string) ≡ some session_id

  -- Three parts, the last of which is the MAC of the first two under the secret key.
  pub record IsAuthentic (now : ℤ) (token user_id session_id : Bytes) : Type 0 where
    pub h : Bytes
    pub p : Bytes
    pub sig : Bytes
    pub form : token ≡ signing_input h p ++ dot ∷ sig
    pub h_lacks : Lacks dot h
    pub p_lacks : Lacks dot p
    pub mac : base64url_decode O sig ≡ O.hmac_sha256 secret_key (signing_input h p)
    pub claims : Claims now p user_id session_id

  read_claims_sound :
      (v : J.Value) (user_id session_id : Bytes)
      → read_claims O J v ≡ some (user_id, session_id)
      → ((J.index v (text "sub") >>= J.get_string) ≡ some user_id)
        × ((J.index v (text "sid") >>= J.get_string) ≡ some session_id)
  unfolding read_claims
  read_claims_sound v user_id session_id e =
      let (sub, found, e') = >>=-eq-some (J.index v (text "sub") >>= J.get_string) _ e in
      let (sid, found', same) = >>=-eq-some (J.index v (text "sid") >>= J.get_string) _ e' in
      (cc, cc)

  read_payload_sound :
      (now : ℤ) (p user_id session_id : Bytes)
      → read_payload O J now p ≡ some (user_id, session_id)
      → Claims now p user_id session_id
  unfolding read_payload
  read_payload_sound now p user_id session_id e =
      let (v, parsed, e1) = >>=-eq-some (J.parse (base64url_decode O p)) _ e in
      let (expiry, exp, e2) = >>=-eq-some (J.index v (text "exp") >>= J.get_long) _ e1 in
      let (in_time, e3) = refuse-eq-some (ltb_ℤ expiry now) _ e2 in
      let (sub, sid) = read_claims_sound v user_id session_id e3 in
      record {
        value = v;
        expiry = expiry;
        parsed = parsed;
        exp = exp;
        unexpired = ground arith;
        sub = sub;
        sid = sid;
      }

  read_payload_complete :
      (now : ℤ) (p user_id session_id : Bytes)
      → Claims now p user_id session_id
      → read_payload O J now p ≡ some (user_id, session_id)
  unfolding read_payload read_claims
  read_payload_complete now p user_id session_id c =
      rw (c.parsed, c.exp, c.sub, c.sid) (ground (arith, c.unexpired))

  module _ (L : MacLaws O) where
    pub signature_matches_iff :
        (h p sig : Bytes)
        → (signature_matches O secret_key h p sig ≡ true)
          ↔ (base64url_decode O sig ≡ O.hmac_sha256 secret_key (signing_input h p))
    unfolding signature_matches
    signature_matches_iff h p sig =
        let expected = O.hmac_sha256 secret_key (signing_input h p) in
        (
          λ e. (L.memcmp_iff (base64url_decode O sig) expected (ground arith)).0 (ground arith),
          λ e.
              let same : length (base64url_decode O sig) ≡ length expected = ap length e in
              ground (arith, (L.memcmp_iff (base64url_decode O sig) expected same).1 e),
        )

    -- `parse_token` accepts exactly the tokens of three parts whose last part decodes to the key's
    -- MAC of the first two and whose second part decodes to claims that have not expired, and it
    -- returns these claims. The comparison of MACs is taken to be exact.
    pub parse_token_iff :
        (now : ℤ) (token user_id session_id : Bytes)
        → (parse_token O J secret_key now token ≡ some (user_id, session_id))
          ↔ IsAuthentic now token user_id session_id
    unfolding parse_token
    parse_token_iff now token user_id session_id = (
      λ e.
          let ((h, p, sig), parts, e1) = >>=-eq-some (split_token token) _ e in
          let (matches, e2) = require-eq-some (signature_matches O secret_key h p sig) _ e1 in
          let (form, h_lacks, p_lacks) = split_token_sound token h p sig parts in
          record {
            h = h;
            p = p;
            sig = sig;
            form = form;
            h_lacks = h_lacks;
            p_lacks = p_lacks;
            mac = (signature_matches_iff h p sig).0 matches;
            claims = read_payload_sound now p user_id session_id e2;
          },
      λ a.
          rw
            (
              a.form,
              split_token-append a.h a.p a.sig a.h_lacks a.p_lacks,
              (signature_matches_iff a.h a.p a.sig).1 a.mac,
            )
            (read_payload_complete now a.p user_id session_id a.claims),
    )
