-- ===== src/Std/Decimal/RoundTrip.antt =====
-- `stoi` reads back what `to_string` wrote.
use pqc_api.Prelude.{
  ℕ, zero, suc, ◌+◌, ◌/◌, ◌%◌, ◌≤◌, ◌≡◌, refl, ap, ◌∙◌, ◌≢◌, true, false, some, [], ◌∷◌, arith,
  Bytes, All, All-mono,
}
use pqc_api.Prelude.Int.{ℤ, pos, negsuc, IsInt32}
use pqc_api.Std.Outcome.{returns}
use pqc_api.Std.Decimal.{digits, to_string, scan, unsigned_value, stoi, checked}

abbrev pub IsDigit : ℕ → Type 0
IsDigit c = (b'0' ≤ c) × (c ≤ b'9')

digits-IsDigit : (fuel n : ℕ) (out : Bytes) → All IsDigit out → All IsDigit (digits fuel n out)
unfolding digits
digits-IsDigit zero n out h = ((omega arith, omega arith), h)
digits-IsDigit (suc fuel) n out h =
    ground
      (arith, digits-IsDigit fuel (n / 10) ((b'0' + n % 10) ∷ out) ((omega arith, omega arith), h))

digits-ne-nil : (fuel n : ℕ) (out : Bytes) → digits fuel n out ≢ []
unfolding digits
digits-ne-nil zero n out = cc
digits-ne-nil (suc fuel) n out = ground (arith, digits-ne-nil fuel (n / 10) ((b'0' + n % 10) ∷ out))

scan_last : (n : ℕ) (out : Bytes) → scan ((b'0' + n % 10) ∷ out) (n / 10) ≡ scan out n
unfolding scan
scan_last n out = ground arith

scan-digits : (fuel n : ℕ) (out : Bytes) → n ≤ fuel → scan (digits fuel n out) 0 ≡ scan out n
unfolding digits
scan-digits zero n out h = ground (arith, scan_last n out)
scan-digits (suc fuel) n out h =
    ground (arith, scan_last n out, scan-digits fuel (n / 10) ((b'0' + n % 10) ∷ out))

unsigned_value_of_IsDigit :
    (s : Bytes) → All IsDigit s → s ≢ [] → unsigned_value s ≡ some (scan s 0)
unfolding unsigned_value
unsigned_value_of_IsDigit [] h ne = absurd (ne refl)
unsigned_value_of_IsDigit (c ∷ s) h ne = ground arith

stoi_of_IsDigit : (s : Bytes) → All IsDigit s → s ≢ [] → stoi s ≡ checked false (unsigned_value s)
unfolding stoi
stoi_of_IsDigit [] h ne = absurd (ne refl)
stoi_of_IsDigit (c ∷ s) h ne = ground arith

stoi_minus : (s : Bytes) → stoi (b'-' ∷ s) ≡ checked true (unsigned_value s)
unfolding stoi
stoi_minus s = refl

unsigned_value-digits : (n : ℕ) → unsigned_value (digits n n []) ≡ some n
unfolding scan
unsigned_value-digits n =
    unsigned_value_of_IsDigit _ (digits-IsDigit n n [] tt) (digits-ne-nil n n [])
    ∙ ap some (scan-digits n n [] (omega arith))

-- Every 32-bit integer is read back from its decimal print.
pub stoi-to_string : (z : ℤ) → IsInt32 z → stoi (to_string z) ≡ returns z
unfolding to_string
stoi-to_string (pos n) h =
    stoi_of_IsDigit _ (digits-IsDigit n n [] tt) (digits-ne-nil n n [])
    ∙ rw unsigned_value-digits (ground arith)
stoi-to_string (negsuc n) h =
    stoi_minus (digits (suc n) (suc n) []) ∙ rw unsigned_value-digits (ground arith)

-- What the text of an integer is made of: ASCII, and neither a NUL nor a quote.
abbrev pub IsPlain : ℕ → Type 0
IsPlain c = (b'-' ≤ c) × (c ≤ b'f')

pub to_string-IsPlain : (z : ℤ) → All IsPlain (to_string z)
unfolding to_string
to_string-IsPlain (pos n) =
    All-mono (λ c h. (omega arith, omega arith)) _ (digits-IsDigit n n [] tt)
to_string-IsPlain (negsuc n) = (
  (omega arith, omega arith),
  All-mono (λ c h. (omega arith, omega arith)) _ (digits-IsDigit (suc n) (suc n) [] tt),
)

-- The text of a number, without the range of an `int`.
pub unsigned_value-to_string : (n : ℕ) → unsigned_value (to_string (pos n)) ≡ some n
unfolding to_string
unsigned_value-to_string n = unsigned_value-digits n

pub to_string-negsuc : (n : ℕ) → to_string (negsuc n) ≡ b'-' ∷ to_string (pos (suc n))
unfolding to_string
to_string-negsuc n = refl
