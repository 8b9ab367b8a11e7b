-- ===== src/Tests/Fakes/Crypto.antt =====
-- Base64 after RFC 4648, a checksum for the MAC, and a reversible password hash.
use pqc_api.Std.Optional.{require-eq-some}
use pqc_api.Prelude.{
  All-replicate, if◌then◌else◌, none, ltb, ◌≢◌, ◌<◌, ℕ, suc, ◌+◌, ◌-◌, ◌*◌, ◌/◌, ◌%◌, ◌<◌, ◌≡◌, ◌≢◌,
  refl, ap, Option, none, some, [], ◌∷◌, ◌++◌, map, arith, ltb, ◌==◌, if◌then◌else◌, length,
  replicate, length-replicate, take, All, Bytes, IsByte, str_eq, str_eq_refl, str_eq_iff,
}
use pqc_api.External.Openssl.{DigestLaws, Openssl, IsBase64, IsBase64Text, Base64Laws, MacLaws}
use pqc_api.External.Sodium.{Sodium, PasswordLaws}
use mathlib.Core.Option
use mathlib.Core.Option.{some-injective}
use mathlib.Core.List.{foldl}

unfoldable pub to_char : ℕ → ℕ
to_char n =
    if ltb n 26
    then b'A' + n
    else if ltb n 52
    then b'a' + (n - 26)
    else if ltb n 62
    then b'0' + (n - 52)
    else if n == 62
    then b'+'
    else b'/'

unfoldable pub of_char : ℕ → ℕ
of_char c =
    if c == b'+'
    then 62
    else if c == b'/'
    then 63
    else if ltb c b'A'
    then c - b'0' + 52
    else if ltb c b'a'
    then c - b'A'
    else c - b'a' + 26

of_char-to_char : (n : ℕ) → n < 64 → of_char (to_char n) ≡ n
unfolding of_char to_char
of_char-to_char n h = ground arith

to_char-IsBase64 : (n : ℕ) → n < 64 → IsBase64 (to_char n)
unfolding to_char
to_char-IsBase64 n h = ground arith

to_char-ne-pad : (n : ℕ) → n < 64 → to_char n ≢ b'='
unfolding to_char
to_char-ne-pad n h = ground arith

unfoldable pub encode : Bytes → Bytes
encode [] = []
encode (a ∷ []) = to_char (a / 4) ∷ to_char (a % 4 * 16) ∷ b'=' ∷ b'=' ∷ []
encode (a ∷ b ∷ []) =
    to_char (a / 4) ∷ to_char (a % 4 * 16 + b / 16) ∷ to_char (b % 16 * 4) ∷ b'=' ∷ []
encode (a ∷ b ∷ c ∷ s) =
    to_char (a / 4)
    ∷ to_char (a % 4 * 16 + b / 16)
    ∷ to_char (b % 16 * 4 + c / 64)
    ∷ to_char (c % 64)
    ∷ encode s

unfoldable pub group : ℕ → ℕ → ℕ → ℕ → Bytes
group w x y z =
    if y == b'='
    then (of_char w * 4 + of_char x / 16) ∷ []
    else if z == b'='
    then (of_char w * 4 + of_char x / 16) ∷ (of_char x % 16 * 16 + of_char y / 4) ∷ []
    else (of_char w * 4 + of_char x / 16)
      ∷ (of_char x % 16 * 16 + of_char y / 4)
      ∷ (of_char y % 4 * 64 + of_char z)
      ∷ []

unfoldable pub decode : Bytes → Option Bytes
decode [] = some []
decode (w ∷ x ∷ y ∷ z ∷ s) = Option.map (λ r. group w x y z ++ r) (decode s)
decode _ = none

group_one : (a : ℕ) → a < 256 → group (to_char (a / 4)) (to_char (a % 4 * 16)) b'=' b'=' ≡ a ∷ []
unfolding group
group_one a h = ground (arith, of_char-to_char (a / 4), of_char-to_char (a % 4 * 16))

group_two :
    (a b : ℕ)
    → a < 256
    → b < 256
    → group (to_char (a / 4)) (to_char (a % 4 * 16 + b / 16)) (to_char (b % 16 * 4)) b'='
      ≡ a ∷ b ∷ []
unfolding group
group_two a b h k = ground (
  arith,
  of_char-to_char (a / 4),
  of_char-to_char (a % 4 * 16 + b / 16),
  of_char-to_char (b % 16 * 4),
  to_char-ne-pad (b % 16 * 4),
)

group_three :
    (a b c : ℕ)
    → a < 256
    → b < 256
    → c < 256
    → group
        (to_char (a / 4))
        (to_char (a % 4 * 16 + b / 16))
        (to_char (b % 16 * 4 + c / 64))
        (to_char (c % 64))
      ≡ a ∷ b ∷ c ∷ []
unfolding group
group_three a b c h k l = ground (
  arith,
  of_char-to_char (a / 4),
  of_char-to_char (a % 4 * 16 + b / 16),
  of_char-to_char (b % 16 * 4 + c / 64),
  of_char-to_char (c % 64),
  to_char-ne-pad (b % 16 * 4 + c / 64),
  to_char-ne-pad (c % 64),
)

decode-encode : (s : Bytes) → All IsByte s → decode (encode s) ≡ some s
unfolding decode encode
decode-encode [] h = refl
decode-encode (a ∷ []) (h, _) = rw (group_one a h)
decode-encode (a ∷ b ∷ []) (h, (k, _)) = rw (group_two a b h k)
decode-encode (a ∷ b ∷ c ∷ s) (h, (k, (l, hs))) = rw (decode-encode s hs, group_three a b c h k l)

longer :
    (w x y z : ℕ) (t : Bytes)
    → IsBase64Text t
    → IsBase64 w
    → IsBase64 x
    → IsBase64 y
    → IsBase64 z
    → IsBase64Text (w ∷ x ∷ y ∷ z ∷ t)
longer w x y z t T hw hx hy hz = record {
  body = w ∷ x ∷ y ∷ z ∷ T.body;
  pad = T.pad;
  form = ap (λ r. w ∷ x ∷ y ∷ z ∷ r) T.form;
  alphabet = (hw, (hx, (hy, (hz, T.alphabet))));
  short = T.short;
  grouped = omega (arith, T.grouped);
}

encode-IsBase64Text : (s : Bytes) → All IsByte s → IsBase64Text (encode s)
unfolding encode
encode-IsBase64Text [] h = record {
  body = [];
  pad = 0;
  form = refl;
  alphabet = tt;
  short = omega arith;
  grouped = refl;
}
encode-IsBase64Text (a ∷ []) (h, _) = record {
  body = to_char (a / 4) ∷ to_char (a % 4 * 16) ∷ [];
  pad = 2;
  form = refl;
  alphabet = (to_char-IsBase64 _ (omega arith), (to_char-IsBase64 _ (omega arith), tt));
  short = omega arith;
  grouped = refl;
}
encode-IsBase64Text (a ∷ b ∷ []) (h, (k, _)) = record {
  body = to_char (a / 4) ∷ to_char (a % 4 * 16 + b / 16) ∷ to_char (b % 16 * 4) ∷ [];
  pad = 1;
  form = refl;
  alphabet = (
    to_char-IsBase64 _ (omega arith),
    (to_char-IsBase64 _ (omega arith), (to_char-IsBase64 _ (omega arith), tt)),
  );
  short = omega arith;
  grouped = refl;
}
encode-IsBase64Text (a ∷ b ∷ c ∷ s) (h, (k, (l, hs))) =
    longer _ _ _ _ (encode s) (encode-IsBase64Text s hs) (to_char-IsBase64 _ (omega arith))
      (to_char-IsBase64 _ (omega arith)) (to_char-IsBase64 _ (omega arith))
      (to_char-IsBase64 _ (omega arith))

-- One byte, repeated; no real MAC.
unfoldable pub checksum : Bytes → ℕ
checksum s = foldl (λ h c. h * 31 + c) 7 s % 256

take_all : (a : Bytes) → take (length a) a ≡ a
take_all [] = refl
take_all (x ∷ a) = ap (λ r. x ∷ r) (take_all a)

abbrev pub openssl : Openssl
openssl = record {
  bio_encode = encode;
  bio_decode = decode;
  hmac_sha256 = λ key message. replicate 32 (checksum (key ++ message));
  sha256 = λ s. replicate 32 (checksum s);
  memcmp_is_zero = λ a b n. str_eq (take n a) (take n b);
}

pub openssl-Base64Laws : Base64Laws openssl
openssl-Base64Laws = record {
  encoded = encode-IsBase64Text;
  decode-encode = λ s b _. decode-encode s b;
}

pub openssl-MacLaws : MacLaws openssl
unfolding checksum
openssl-MacLaws = record {
  mac_length = λ key message. length-replicate 32 (checksum (key ++ message));
  mac_bytes = λ key message. All-replicate IsByte 32 (checksum (key ++ message)) (omega arith);
  memcmp_iff = λ a b same. rw (← same, take_all a, same, take_all b) (str_eq_iff a b);
}

pub openssl-DigestLaws : DigestLaws openssl
unfolding checksum
openssl-DigestLaws = record {
  sha256_bytes = λ s. All-replicate IsByte 32 (checksum s) (omega arith);
}

abbrev pub masked : ℕ → ℕ
masked c = suc (c % 127)

abbrev pub sodium : Sodium
sodium = record {
  pwhash_str =
      λ salt password. if ltb (length password) 128 then some (map masked password) else none;
  pwhash_str_verify = λ hash password. str_eq hash (map masked password);
}

map-masked : (s : Bytes) → All (λ c. (c < 128) × (c ≢ 0)) (map masked s)
map-masked [] = tt
map-masked (c ∷ s) = ((omega arith, omega arith), map-masked s)

length-map-masked : (s : Bytes) → length (map masked s) ≡ length s
length-map-masked [] = refl
length-map-masked (c ∷ s) = ap suc (length-map-masked s)

masked_hash :
    (password hash : Bytes)
    → (if ltb (length password) 128 then some (map masked password) else none) ≡ some hash
    → (map masked password ≡ hash) × (length hash < 128)
masked_hash password hash e =
    let (short, e') = require-eq-some (ltb (length password) 128) _ e in
    let same = some-injective (map masked password) hash e' in
    (same, rw (← same) (ground (arith, length-map-masked password)))

pub sodium-PasswordLaws : PasswordLaws sodium
sodium-PasswordLaws = record {
  hash_text = λ salt password hash e. rw (← (masked_hash password hash e).0) (map-masked password);
  hash_length = λ salt password hash e. (masked_hash password hash e).1;
  verify-hash = λ salt password hash e.
      rw (← (masked_hash password hash e).0) (str_eq_refl (map masked password));
}
