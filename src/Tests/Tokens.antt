-- ===== src/Tests/Tokens.antt =====
-- Base64url and tokens.
use pqc_api.Prelude.{
  ℕ, ◌≤◌, ◌%◌, ◌++◌, length, ◌≡◌, refl, ◌↔◌, none, some, [], ◌∷◌, arith, if◌then◌else◌, Bytes, text,
  replicate, str_eq,
}
use pqc_api.Prelude.Int.{ℤ, pos, ◌+ℤ◌, ltb_ℤ}
use pqc_api.Std.Outcome.{returns}
use pqc_api.Std.Strings.{find_char}
use pqc_api.Std.Decimal.{to_string, unsigned_value}
use pqc_api.Auth.Base64Url.{base64url_encode, base64url_decode}
use pqc_api.Auth.Base64Url.RoundTrip.{base64url_decode-encode}
use pqc_api.Auth.SessionId.{to_hex, of_hex, of_hex-to_hex}
use pqc_api.Auth.Token.Build.{token_ttl_seconds, header, payload, seal, build_token}
use pqc_api.Auth.Token.Parse.{
  split_token, signature_matches, read_payload, read_claims, parse_token,
}
use pqc_api.Auth.Token.Authentic.{IsAuthentic, parse_token_iff}
use pqc_api.Auth.Token.RoundTrip.{parse_token-build_token}
use pqc_api.Auth.Base64Url.{pad_loop, restore_padding}
use pqc_api.Auth.Base64Url.Padding.{restore_padding_ends}
use pqc_api.Tests.Fakes.Crypto.{
  to_char, of_char, encode, group, decode, checksum, openssl, openssl-Base64Laws, openssl-MacLaws,
}
use pqc_api.Tests.Fakes.Text.{write, read, read_number, parse_doc, json, json-JsonLaws}

abbrev sample : Bytes
sample = 251 ∷ 255 ∷ 191 ∷ 62 ∷ []

base64url_sample : base64url_encode openssl sample ≡ text "-_-_Pg"
unfolding base64url_encode encode to_char text
base64url_sample = refl

base64url_decode-encode_example :
    base64url_decode openssl (base64url_encode openssl sample) ≡ sample
base64url_decode-encode_example =
    base64url_decode-encode openssl openssl-Base64Laws sample (omega arith) (cc)

of_hex-to_hex_example : of_hex (to_hex sample) ≡ sample
of_hex-to_hex_example = of_hex-to_hex sample (omega arith)

abbrev pub secret : Bytes
secret = replicate 32 115

abbrev pub issue_time : ℤ
issue_time = pos 1700000000

parse_token-build_token_example :
    (token : Bytes) × (build_token openssl json secret issue_time (text "7") (text "ab01")
      ≡ returns token)
    × ((later : ℤ)
        → parse_token openssl json secret later token ≡ (
            if ltb_ℤ (issue_time +ℤ token_ttl_seconds) later
            then none
            else some (text "7", text "ab01")))
unfolding text
parse_token-build_token_example =
    parse_token-build_token openssl json secret openssl-Base64Laws openssl-MacLaws json-JsonLaws
      issue_time (text "7") (text "ab01") (omega arith) (omega arith)

-- A token as `build_token` writes it.
abbrev pub issued : Bytes
issued =
    seal openssl json secret (b'{' ∷ write header)
      (b'{' ∷ write (payload issue_time (text "7") (text "ab01")))

pub issued_accepted :
    parse_token openssl json secret issue_time issued ≡ some (text "7", text "ab01")
unfolding parse_token seal split_token find_char signature_matches read_payload read_claims
    base64url_encode base64url_decode encode decode to_char of_char group checksum parse_doc read
    read_number write to_string unsigned_value str_eq text
issued_accepted = refl

parse_token_iff_example :
    (parse_token openssl json secret issue_time issued ≡ some (text "7", text "ab01"))
    ↔ IsAuthentic openssl json secret issue_time issued (text "7") (text "ab01")
parse_token_iff_example =
    parse_token_iff openssl json secret openssl-MacLaws issue_time issued (text "7") (text "ab01")

restore_padding_ends_example :
    ((n : ℕ) × (n ≤ 3) × (restore_padding (text "YWI") ≡ text "YWI" ++ replicate n b'='))
    × (length (restore_padding (text "YWI")) % 4 ≡ 0)
    × ((fuel : ℕ) → 3 ≤ fuel → pad_loop fuel (text "YWI") ≡ restore_padding (text "YWI"))
restore_padding_ends_example = restore_padding_ends (text "YWI")
