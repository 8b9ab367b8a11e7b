-- ===== src/Tests/Std.antt =====
-- Numbers as text.
use pqc_api.Prelude.{◌≡◌, refl, text, arith}
use pqc_api.Prelude.Int.{pos, negsuc}
use pqc_api.Std.Outcome.{returns, throws, out_of_range, invalid_argument}
use pqc_api.Std.Decimal.{to_string, stoi}
use pqc_api.Std.Decimal.RoundTrip.{stoi-to_string}

stoi-to_string_example : stoi (to_string (negsuc 41)) ≡ returns (negsuc 41)
stoi-to_string_example = stoi-to_string (negsuc 41) (omega arith)

stoi_tests :
    (stoi (text " +17x") ≡ returns (pos 17))
    × (stoi (text "2147483648") ≡ throws out_of_range)
    × (stoi (text "-2147483648") ≡ returns (negsuc 2147483647))
    × (stoi (text "x1") ≡ throws (invalid_argument (text "stoi")))
unfolding stoi text
stoi_tests = (refl, refl, refl, refl)
