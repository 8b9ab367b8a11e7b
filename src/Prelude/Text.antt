-- ===== src/Prelude/Text.antt =====
-- `std::string` and byte vectors: lists of numbers, each below 256 where a theorem needs it.
use Prim.Native.Nat.{ℕ, ◌<◌}
use Prim.Native.Char.{code}
use Prim.Native.String.{String}
use mathlib.Core.Path.{◌≡◌, refl}
use mathlib.Core.Logic.{◌↔◌, ◌≢◌}
use mathlib.Core.Bool.{Bool, true, false, ◌&&◌}
use mathlib.Core.List.{List, [], ◌∷◌}
use native.Mathlib.Omega.{arith}
use pqc_api.Prelude.Tests.{◌==◌}
use pqc_api.Prelude.Lists.{All}

abbrev pub Bytes : Type 0
Bytes = List ℕ

-- The bytes of an ASCII literal. Shut, so that a message in a statement stays one word.
unfoldable pub text : String → Bytes
text String.[] = []
text (String.◌∷◌ c s) = code c ∷ text s

abbrev pub Lacks : ℕ → Bytes → Type 0
Lacks b = All (λ c. c ≢ b)

abbrev pub IsByte : ℕ → Type 0
IsByte b = b < 256

-- `operator==` of two strings.
unfoldable pub str_eq : Bytes → Bytes → Bool
str_eq [] [] = true
str_eq (a ∷ s) (b ∷ t) = (a == b) && str_eq s t
str_eq _ _ = false

pub str_eq_refl : (s : Bytes) → str_eq s s ≡ true
unfolding str_eq
str_eq_refl [] = refl
str_eq_refl (a ∷ s) = ground (arith, str_eq_refl s)

eq_of_str_eq : (s t : Bytes) → str_eq s t ≡ true → s ≡ t
unfolding str_eq
eq_of_str_eq [] [] h = refl
eq_of_str_eq [] (b ∷ t) h = cc
eq_of_str_eq (a ∷ s) [] h = cc
eq_of_str_eq (a ∷ s) (b ∷ t) h = ground (arith, eq_of_str_eq s t)

pub str_eq_iff : (s t : Bytes) → (str_eq s t ≡ true) ↔ (s ≡ t)
str_eq_iff s t = (eq_of_str_eq s t, λ e. rw e (str_eq_refl t))

-- `s.empty()`.
abbrev pub is_empty : Bytes → Bool
is_empty [] = true
is_empty (c ∷ s) = false
