-- ===== src/Std/Decimal.antt =====
-- `std::to_string` and `std::stoi` on 32-bit integers.
pub mod RoundTrip
use pqc_api.Prelude.{
  ℕ, zero, suc, ◌+◌, ◌-◌, ◌*◌, ◌/◌, ◌%◌, ◌^◌, Bool, true, false, ◌&&◌, ◌||◌, Option, none, some, [],
  ◌∷◌, ltb, leb, ◌==◌, if◌then◌else◌, Bytes, text,
}
use pqc_api.Prelude.Int.{ℤ, pos, negsuc}
use pqc_api.Std.Outcome.{out_of_range, invalid_argument, Outcome, returns, throws}

abbrev pub is_digit : ℕ → Bool
is_digit c = leb b'0' c && leb c b'9'

-- The decimal digits of `n` in front of `out`; `n` rounds are more than enough.
digits : ℕ → ℕ → Bytes → Bytes
digits zero n out = (b'0' + n % 10) ∷ out
digits (suc fuel) n out =
    let rest = digits fuel (n / 10) ((b'0' + n % 10) ∷ out) in
    if ltb n 10 then (b'0' + n % 10) ∷ out else rest

unfoldable pub to_string : ℤ → Bytes
unfolding digits
to_string (pos n) = digits n n []
to_string (negsuc n) = b'-' ∷ digits (suc n) (suc n) []

unfoldable pub is_space : ℕ → Bool
is_space c = (c == 32) || (leb 9 c && leb c 13)

unfoldable pub skip_space : Bytes → Bytes
unfolding is_space
skip_space [] = []
skip_space (c ∷ s) = if is_space c then skip_space s else c ∷ s

-- The value of the leading digits, behind the value `n` of those before them.
unfoldable pub scan : Bytes → ℕ → ℕ
scan [] n = n
scan (c ∷ s) n = if is_digit c then scan s (n * 10 + (c - b'0')) else n

unfoldable pub unsigned_value : Bytes → Option ℕ
unfolding scan
unsigned_value [] = none
unsigned_value (c ∷ s) = if is_digit c then some (scan (c ∷ s) 0) else none

abbrev in_range : Bool → ℕ → Outcome ℤ
in_range true zero = returns (pos 0)
in_range true (suc n) = if ltb n (2 ^ 31) then returns (negsuc n) else throws out_of_range
in_range false n = if ltb n (2 ^ 31) then returns (pos n) else throws out_of_range

abbrev checked : Bool → Option ℕ → Outcome ℤ
checked negative none = throws (invalid_argument (text "stoi"))
checked negative (some n) = in_range negative n

unfoldable pub signed_value : Bytes → Outcome ℤ
unfolding unsigned_value
signed_value [] = throws (invalid_argument (text "stoi"))
signed_value (c ∷ s) =
    if c == b'-'
    then checked true (unsigned_value s)
    else if c == b'+'
    then checked false (unsigned_value s)
    else checked false (unsigned_value (c ∷ s))

unfoldable pub stoi : Bytes → Outcome ℤ
unfolding skip_space signed_value
stoi s = signed_value (skip_space s)
