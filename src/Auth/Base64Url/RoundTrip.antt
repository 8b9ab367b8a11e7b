-- ===== src/Auth/Base64Url/RoundTrip.antt =====
-- base64url text is decoded to the bytes it was made from, and is made of the URL-safe alphabet.
use pqc_api.Prelude.{
  ℕ, zero, suc, ◌+◌, ◌%◌, ◌≤◌, ◌≡◌, refl, ap, ◌≢◌, Bool, true, ◌&&◌, ◌||◌, [], ◌∷◌, ◌++◌, map,
  append-nil, append_assoc, arith, leb, ◌==◌, length, length-append, replicate, All, Bytes, IsByte,
}
use pqc_api.External.Openssl.{Openssl, IsBase64, Base64Laws}
use pqc_api.Auth.Base64Url.{
  to_url, from_url, strip_padding, restore_padding, base64url_encode, base64url_decode,
}
use mathlib.Core.List.{map-append}

-- A letter, a digit, `-` or `_`.
abbrev pub is_url : ℕ → Bool
is_url c =
    (leb b'A' c && leb c b'Z')
    || (leb b'a' c && leb c b'z')
    || (leb b'0' c && leb c b'9')
    || (c == b'-')
    || (c == b'_')

abbrev pub IsUrl : ℕ → Type 0
IsUrl c = is_url c ≡ true

to_url-IsUrl : (c : ℕ) → IsBase64 c → IsUrl (to_url c)
unfolding to_url
to_url-IsUrl c h = ground arith

map-to_url-IsUrl : (s : Bytes) → All IsBase64 s → All IsUrl (map to_url s)
map-to_url-IsUrl [] h = tt
map-to_url-IsUrl (c ∷ s) (h, hs) = (to_url-IsUrl c h, map-to_url-IsUrl s hs)

from_url-to_url : (c : ℕ) → IsBase64 c → from_url (to_url c) ≡ c
unfolding to_url from_url
from_url-to_url c h = ground arith

map-from_url-to_url : (s : Bytes) → All IsBase64 s → map from_url (map to_url s) ≡ s
map-from_url-to_url [] h = refl
map-from_url-to_url (c ∷ s) (h, hs) = cc (from_url-to_url c h, map-from_url-to_url s hs)

length-map-to_url : (s : Bytes) → length (map to_url s) ≡ length s
length-map-to_url [] = refl
length-map-to_url (c ∷ s) = ap suc (length-map-to_url s)

map-to_url-replicate : (n : ℕ) → map to_url (replicate n b'=') ≡ replicate n b'='
unfolding to_url
map-to_url-replicate zero = refl
map-to_url-replicate (suc n) = ap (λ s. b'=' ∷ s) (map-to_url-replicate n)

strip_padding-replicate : (n : ℕ) → strip_padding (replicate n b'=') ≡ []
unfolding strip_padding
strip_padding-replicate zero = refl
strip_padding-replicate (suc n) = rw (strip_padding-replicate n)

strip_padding-append : (s : Bytes) (n : ℕ) → All IsUrl s → strip_padding (s ++ replicate n b'=') ≡ s
unfolding strip_padding
strip_padding-append [] n h = strip_padding-replicate n
strip_padding-append (c ∷ s) n (h, hs) = ground (arith, strip_padding-append s n hs)

-- The loop restores the padding that was stripped.
restore_padding_lem :
    (s : Bytes) (n : ℕ) → n ≤ 2 → (length s + n) % 4 ≡ 0 → restore_padding s ≡ s ++ replicate n b'='
unfolding restore_padding
restore_padding_lem s zero h e = ground (arith, append-nil s)
restore_padding_lem s (suc zero) h e = ground (arith, length-append s (b'=' ∷ []))
restore_padding_lem s (suc (suc zero)) h e = ground (
  arith,
  length-append s (b'=' ∷ []),
  length-append (s ++ b'=' ∷ []) (b'=' ∷ []),
  append_assoc s (b'=' ∷ []) (b'=' ∷ []),
)
restore_padding_lem s (suc (suc (suc n))) h e = absurd (omega arith)

module _ (O : Openssl) (L : Base64Laws O) where
  module _ (s : Bytes) (b : All IsByte s) where
    base64url_encode_body : base64url_encode O s ≡ map to_url (L.encoded s b).body
    unfolding base64url_encode
    base64url_encode_body =
        let t = L.encoded s b in
        rw (t.form, map-append, map-to_url-replicate)
          (strip_padding-append _ t.pad (map-to_url-IsUrl t.body t.alphabet))

    -- The encoder writes letters, digits, `-` and `_` only, for a text of bytes.
    pub base64url_encode-IsUrl : All IsUrl (base64url_encode O s)
    base64url_encode-IsUrl = rw base64url_encode_body (map-to_url-IsUrl _ (L.encoded s b).alphabet)

    -- Decoding what was encoded gives the bytes back, for a text of bytes that is not empty.
    pub base64url_decode-encode : s ≢ [] → base64url_decode O (base64url_encode O s) ≡ s
    unfolding base64url_decode
    base64url_decode-encode ne =
        let t = L.encoded s b in
        rw (
          base64url_encode_body,
          map-from_url-to_url t.body t.alphabet,
          restore_padding_lem t.body t.pad t.short t.grouped,
          ← t.form,
          L.decode-encode s b ne,
        )
