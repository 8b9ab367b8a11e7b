-- ===== src/Auth/Base64Url.antt =====
-- The base64url helpers of src/auth/AuthManager.cpp.
pub mod RoundTrip
pub mod Padding
use pqc_api.Prelude.{
  ℕ, zero, suc, ◌%◌, Bool, true, false, ◌&&◌, Option, none, some, [], ◌∷◌, ◌++◌, map, ◌==◌,
  if◌then◌else◌, length, Bytes, is_empty,
}
use pqc_api.External.Openssl.{Openssl}

-- Standard base64 → base64url
unfoldable pub to_url : ℕ → ℕ
to_url c = if c == b'+' then b'-' else if c == b'/' then b'_' else c

unfoldable pub from_url : ℕ → ℕ
from_url c = if c == b'-' then b'+' else if c == b'_' then b'/' else c

-- `while (!result.empty() && result.back() == '=') result.pop_back();`
unfoldable pub strip_padding : Bytes → Bytes
strip_padding [] = []
strip_padding (c ∷ s) =
    let rest = strip_padding s in if c == b'=' && is_empty rest then [] else c ∷ rest

-- `while (padded.size() % 4 != 0) padded += '=';`, which makes three rounds at most.
unfoldable pub pad_loop : ℕ → Bytes → Bytes
pad_loop zero s = s
pad_loop (suc fuel) s =
    let rest = pad_loop fuel (s ++ b'=' ∷ []) in if length s % 4 == 0 then s else rest

unfoldable pub restore_padding : Bytes → Bytes
unfolding pad_loop
restore_padding s = pad_loop 3 s

-- `if (len > 0) result.resize(len); else result.clear();`
abbrev pub read_or_empty : Option Bytes → Bytes
read_or_empty none = []
read_or_empty (some s) = s

module _ (O : Openssl) where
  unfoldable pub base64url_encode : Bytes → Bytes
  unfolding to_url strip_padding
  base64url_encode input = strip_padding (map to_url (O.bio_encode input))

  unfoldable pub base64url_decode : Bytes → Bytes
  unfolding from_url restore_padding
  base64url_decode input = read_or_empty (O.bio_decode (restore_padding (map from_url input)))
