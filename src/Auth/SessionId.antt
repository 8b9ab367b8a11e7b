-- ===== src/Auth/SessionId.antt =====
-- `generate_session_id` of src/auth/AuthManager.cpp, from the bytes of `randombytes_buf`.
use pqc_api.Prelude.{
  ℕ, ◌+◌, ◌-◌, ◌*◌, ◌/◌, ◌%◌, ◌<◌, ◌≤◌, ◌≡◌, refl, arith, [], ◌∷◌, ltb, if◌then◌else◌, length, All,
  Bytes, IsByte,
}

-- The digit that `%x` prints.
unfoldable pub hex_digit : ℕ → ℕ
hex_digit n = if ltb n 10 then b'0' + n else b'a' + (n - 10)

-- `%02x` of each byte.
unfoldable pub to_hex : Bytes → Bytes
unfolding hex_digit
to_hex [] = []
to_hex (b ∷ bs) = hex_digit (b / 16) ∷ hex_digit (b % 16) ∷ to_hex bs

unfoldable pub generate_session_id : Bytes → Bytes
unfolding to_hex
generate_session_id buf = to_hex buf

-- Two digits for each byte.
pub length-to_hex : (bs : Bytes) → length (to_hex bs) ≡ 2 * length bs
unfolding to_hex
length-to_hex [] = refl
length-to_hex (b ∷ bs) = omega (arith, length-to_hex bs)

abbrev pub IsHex : ℕ → Type 0
IsHex c = (b'0' ≤ c) × (c ≤ b'f')

hex_digit-IsHex : (n : ℕ) → n < 16 → IsHex (hex_digit n)
unfolding hex_digit
hex_digit-IsHex n h = ground arith

pub to_hex-IsHex : (bs : Bytes) → All IsByte bs → All IsHex (to_hex bs)
unfolding to_hex
to_hex-IsHex [] h = tt
to_hex-IsHex (b ∷ bs) (h, hs) = (
  hex_digit-IsHex (b / 16) (omega arith),
  (hex_digit-IsHex (b % 16) (omega arith), to_hex-IsHex bs hs),
)

digit_of_hex : ℕ → ℕ
digit_of_hex c = if ltb c b'a' then c - b'0' else c - b'a' + 10

digit_of_hex-hex_digit : (n : ℕ) → n < 16 → digit_of_hex (hex_digit n) ≡ n
unfolding digit_of_hex hex_digit
digit_of_hex-hex_digit n h = ground arith

byte_of_digits :
    (b : ℕ)
    → b < 256
    → digit_of_hex (hex_digit (b / 16)) * 16 + digit_of_hex (hex_digit (b % 16)) ≡ b
byte_of_digits b h = omega (arith, digit_of_hex-hex_digit (b / 16), digit_of_hex-hex_digit (b % 16))

-- The bytes that a hexadecimal text spells.
pub of_hex : Bytes → Bytes
of_hex (c ∷ d ∷ s) = (digit_of_hex c * 16 + digit_of_hex d) ∷ of_hex s
of_hex _ = []

-- The bytes can be read back from a session id, so that no two buffers of bytes give one id.
pub of_hex-to_hex : (bs : Bytes) → All IsByte bs → of_hex (to_hex bs) ≡ bs
unfolding of_hex to_hex
of_hex-to_hex [] h = refl
of_hex-to_hex (b ∷ bs) (h, hs) = cc (byte_of_digits b h, of_hex-to_hex bs hs)
