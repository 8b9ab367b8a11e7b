-- ===== src/Api/Disposition/Value.antt =====
-- The whole header value of `contentDisposition` in src/api/Controllers.cpp.
use pqc_api.Prelude.{
  ℕ, ◌≤◌, ◌<◌, ◌≡◌, ◌≢◌, ◌⊎◌, refl, inl, inr, arith, true, [], ◌∷◌, ◌++◌, ◌/◌, ◌%◌, All, Bytes,
  IsByte, text, Bool-cases,
}
use pqc_api.Api.Disposition.{
  is_plain, is_unsafe, upper_hex_digit, fallback_name, encoded_name, header_value,
  content_disposition, fallback_name-IsSafe, percent_decode, percent_decode-encoded_name,
}

abbrev pub IsSafe : ℕ → Type 0
IsSafe c = (32 ≤ c) × (c < 127) × (c ≢ b'"') × (c ≢ b'\\')

-- A digit, a letter, or one of `.`, `-`, `_` and `%`: what RFC 5987 lets stand in `filename*` behind
-- the character set, or less.
abbrev pub IsEncoded : ℕ → Type 0
IsEncoded c =
    (b'0' ≤ c × c ≤ b'9')
    ⊎ (b'A' ≤ c × c ≤ b'Z')
    ⊎ (b'a' ≤ c × c ≤ b'z')
    ⊎ (c ≡ b'.')
    ⊎ (c ≡ b'-')
    ⊎ (c ≡ b'_')
    ⊎ (c ≡ b'%')

is_plain-IsEncoded : (c : ℕ) → is_plain c ≡ true → IsEncoded c
unfolding is_plain
is_plain-IsEncoded c h = ground arith

upper_hex_digit-IsEncoded : (n : ℕ) → n < 16 → IsEncoded (upper_hex_digit n)
unfolding upper_hex_digit
upper_hex_digit-IsEncoded n h = ground arith

encoded_name-IsEncoded : (name : Bytes) → All IsByte name → All IsEncoded (encoded_name name)
unfolding encoded_name
encoded_name-IsEncoded [] h = tt
encoded_name-IsEncoded (c ∷ s) (h, hs) = elim (Bool-cases (is_plain c)) [
  | inl plain ↦ rw plain (is_plain-IsEncoded c plain, encoded_name-IsEncoded s hs)
  | inr other ↦ rw other (
    ground arith,
    (
      upper_hex_digit-IsEncoded (c / 16) (omega arith),
      (upper_hex_digit-IsEncoded (c % 16) (omega arith), encoded_name-IsEncoded s hs),
    ),
  )
]

-- The parts of a header value for a name.
pub record Parts (name value : Bytes) : Type 0 where
  pub quoted : Bytes
  pub encoded : Bytes
  pub whole :
      value ≡ text "attachment; filename=\"" ++ quoted ++ text "\"; filename*=UTF-8''" ++ encoded
  pub safe : All IsSafe quoted
  pub plain : All IsEncoded encoded
  pub decoded : percent_decode encoded ≡ name

abbrev pub shown_name : Bytes → Bytes
shown_name [] = text "document.pdf"
shown_name (c ∷ s) = c ∷ s

document_pdf-encoded : encoded_name (text "document.pdf") ≡ text "document.pdf"
unfolding encoded_name text is_plain
document_pdf-encoded = refl

document_pdf-fallback : fallback_name (text "document.pdf") ≡ text "document.pdf"
unfolding fallback_name text is_unsafe
document_pdf-fallback = refl

document_pdf-IsByte : All IsByte (text "document.pdf")
unfolding text
document_pdf-IsByte = omega arith

content-Parts :
    (name : Bytes)
    → All IsByte name
    → Parts name (header_value (fallback_name name) (encoded_name name))
content-Parts name h = record {
  quoted = fallback_name name;
  encoded = encoded_name name;
  whole = refl;
  safe = fallback_name-IsSafe name;
  plain = encoded_name-IsEncoded name h;
  decoded = percent_decode-encoded_name name h;
}

-- For a file name of bytes the header value is `attachment; filename="Q"; filename*=UTF-8''E`, where
-- Q holds printable ASCII characters without quote and backslash, so that no name ends the quoted
-- string or the header line, and E holds letters, digits, `.`, `-`, `_` and `%` and decodes to the name,
-- or to `document.pdf` for the empty name.
pub content_disposition_lem :
    (filename : Bytes)
    → All IsByte filename
    → Parts (shown_name filename) (content_disposition filename)
unfolding content_disposition fallback_name
content_disposition_lem [] h =
    rw (document_pdf-encoded, document_pdf-fallback) at
      (content-Parts (text "document.pdf") document_pdf-IsByte)
content_disposition_lem (c ∷ s) h = content-Parts (c ∷ s) h
