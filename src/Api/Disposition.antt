-- ===== src/Api/Disposition.antt =====
-- `contentDisposition` of src/api/Controllers.cpp.
pub mod Value
use pqc_api.Prelude.{
  ℕ, ◌+◌, ◌-◌, ◌*◌, ◌/◌, ◌%◌, ◌<◌, ◌≤◌, ◌≡◌, ◌≢◌, refl, arith, Bool, true, ◌||◌, ◌&&◌, [], ◌∷◌,
  ◌++◌, ltb, leb, ◌==◌, if◌then◌else◌, All, Bytes, IsByte, text, is_empty, Bool-cases, inl, inr, ap,
}

-- A control character, a byte beyond ASCII, a quote or a backslash.
unfoldable pub is_unsafe : ℕ → Bool
is_unsafe c = ltb c 32 || leb 127 c || (c == b'"') || (c == b'\\')

-- `std::isalnum` in the C locale.
abbrev is_alnum : ℕ → Bool
is_alnum c = (leb b'0' c && leb c b'9') || (leb b'A' c && leb c b'Z') || (leb b'a' c && leb c b'z')

unfoldable pub is_plain : ℕ → Bool
is_plain c = is_alnum c || (c == b'.') || (c == b'-') || (c == b'_')

unfoldable pub upper_hex_digit : ℕ → ℕ
upper_hex_digit n = if ltb n 10 then b'0' + n else b'A' + (n - 10)

unfoldable pub fallback_name : Bytes → Bytes
fallback_name [] = []
fallback_name (c ∷ s) = (if is_unsafe c then b'_' else c) ∷ fallback_name s

unfoldable pub encoded_name : Bytes → Bytes
encoded_name [] = []
encoded_name (c ∷ s) =
    let rest = encoded_name s in
    if is_plain c
    then c ∷ rest
    else b'%' ∷ upper_hex_digit (c / 16) ∷ upper_hex_digit (c % 16) ∷ rest

abbrev pub header_value : Bytes → Bytes → Bytes
header_value fallback encoded =
    text "attachment; filename=\"" ++ fallback ++ text "\"; filename*=UTF-8''" ++ encoded

unfoldable pub content_disposition : Bytes → Bytes
content_disposition filename =
    if is_empty (fallback_name filename)
    then header_value (text "document.pdf") (text "document.pdf")
    else header_value (fallback_name filename) (encoded_name filename)

-- The fallback name holds printable ASCII characters other than the quote and the backslash, so
-- that no name ends the quoted string or the header line.
pub fallback_name-IsSafe :
    (filename : Bytes)
    → All (λ c. (32 ≤ c) × (c < 127) × (c ≢ b'"') × (c ≢ b'\\')) (fallback_name filename)
unfolding fallback_name is_unsafe
fallback_name-IsSafe [] = tt
fallback_name-IsSafe (c ∷ s) = (ground arith, fallback_name-IsSafe s)

digit_value : ℕ → ℕ
digit_value c = if ltb c b'A' then c - b'0' else c - b'A' + 10

digit_value-upper_hex_digit : (n : ℕ) → n < 16 → digit_value (upper_hex_digit n) ≡ n
unfolding digit_value upper_hex_digit
digit_value-upper_hex_digit n h = ground arith

-- What a client reads back from the percent encoding (RFC 5987).
pub percent_decode : Bytes → Bytes
unfolding digit_value
percent_decode [] = []
percent_decode (c ∷ []) = c ∷ []
percent_decode (c ∷ d ∷ []) = c ∷ d ∷ []
percent_decode (c ∷ d ∷ e ∷ s) =
    let plain = percent_decode (d ∷ e ∷ s) in
    let rest = percent_decode s in
    if c == b'%' then (digit_value d * 16 + digit_value e) ∷ rest else c ∷ plain

percent_decode-nil : percent_decode [] ≡ []
unfolding percent_decode
percent_decode-nil = refl

percent_decode-plain :
    (c : ℕ) (s : Bytes) → c ≢ b'%' → percent_decode (c ∷ s) ≡ c ∷ percent_decode s
unfolding percent_decode
percent_decode-plain c [] h = refl
percent_decode-plain c (d ∷ []) h = refl
percent_decode-plain c (d ∷ e ∷ s) h = ground arith

percent_decode-escape :
    (c : ℕ) (s : Bytes)
    → IsByte c
    → percent_decode (b'%' ∷ upper_hex_digit (c / 16) ∷ upper_hex_digit (c % 16) ∷ s)
      ≡ c ∷ percent_decode s
unfolding percent_decode
percent_decode-escape c s h =
    ap (λ d. d ∷ percent_decode s)
      (omega (arith, digit_value-upper_hex_digit (c / 16), digit_value-upper_hex_digit (c % 16)))

plain_lem : (c : ℕ) → is_plain c ≡ true → c ≢ b'%'
unfolding is_plain
plain_lem c h = ground arith

-- The percent encoding of a name, a text of bytes, decodes to the name.
pub percent_decode-encoded_name :
    (filename : Bytes) → All IsByte filename → percent_decode (encoded_name filename) ≡ filename
unfolding encoded_name
percent_decode-encoded_name [] h = percent_decode-nil
percent_decode-encoded_name (c ∷ s) (h, hs) = elim (Bool-cases (is_plain c)) [
  | inl plain ↦
      rw (plain, percent_decode-plain c (encoded_name s) (plain_lem c plain))
        (ap (λ r. c ∷ r) (percent_decode-encoded_name s hs))
  | inr other ↦
      rw (other, percent_decode-escape c (encoded_name s) h)
        (ap (λ r. c ∷ r) (percent_decode-encoded_name s hs))
]
