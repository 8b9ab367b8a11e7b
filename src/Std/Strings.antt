-- ===== src/Std/Strings.antt =====
-- `std::string` searching, as src/auth/AuthManager.cpp and src/api/Controllers.cpp use it.
use pqc_api.Prelude.{
  ℕ, zero, suc, ◌+◌, ◌≡◌, refl, Bool, true, false, ◌||◌, Option, none, some, [], ◌∷◌, ◌++◌, arith,
  ◌==◌, if◌then◌else◌, length, drop, Bytes, take, Lacks,
}
use mathlib.Core.Option

-- `s.find(c)`; `none` is `npos`.
unfoldable pub find_char : ℕ → Bytes → Option ℕ
find_char c [] = none
find_char c (d ∷ s) = if d == c then some 0 else Option.map suc (find_char c s)

-- `s.find(c, from)` for `from <= s.size()`.
unfoldable pub find_char_from : ℕ → Bytes → ℕ → Option ℕ
find_char_from c s from = Option.map (λ i. from + i) (find_char c (drop from s))

-- `s.rfind(prefix, 0) == 0`.
unfoldable pub starts_with : Bytes → Bytes → Bool
starts_with [] s = true
starts_with (c ∷ p) [] = false
starts_with (c ∷ p) (d ∷ s) = if c == d then starts_with p s else false

-- `s.find(needle) != npos`.
unfoldable pub contains : Bytes → Bytes → Bool
unfolding starts_with
contains needle [] = starts_with needle []
contains needle (c ∷ s) = starts_with needle (c ∷ s) || contains needle s

-- What `s.c_str()` shows to a C function: the bytes before the first NUL.
unfoldable pub c_str : Bytes → Bytes
c_str [] = []
c_str (c ∷ s) = if c == 0 then [] else c ∷ c_str s

pub c_str_of_Lacks : (s : Bytes) → Lacks 0 s → c_str s ≡ s
unfolding c_str
c_str_of_Lacks [] h = refl
c_str_of_Lacks (c ∷ s) (h, hs) = ground (arith, c_str_of_Lacks s hs)

pub c_str-append : (s t : Bytes) → Lacks 0 s → c_str (s ++ t) ≡ s ++ c_str t
unfolding c_str
c_str-append [] t h = refl
c_str-append (c ∷ s) t (h, hs) = ground (arith, c_str-append s t hs)

pub find_char-append :
    (c : ℕ) (s t : Bytes) → Lacks c s → find_char c (s ++ c ∷ t) ≡ some (length s)
unfolding find_char
find_char-append c [] t h = ground arith
find_char-append c (d ∷ s) t (h, hs) = ground (arith, find_char-append c s t hs)

pub starts_with-append : (p s : Bytes) → starts_with p (p ++ s) ≡ true
unfolding starts_with
starts_with-append [] s = refl
starts_with-append (c ∷ p) s = ground (arith, starts_with-append p s)

-- A text with the prefix is the prefix and what `substr(prefix.size())` leaves.
pub starts_with_split : (p s : Bytes) → starts_with p s ≡ true → s ≡ p ++ drop (length p) s
unfolding starts_with
starts_with_split [] s h = refl
starts_with_split (c ∷ p) [] h = cc
starts_with_split (c ∷ p) (d ∷ s) h = ground (arith, starts_with_split p s)

-- Where `find` stops: before the position there is no such byte, and there it stands.
pub find_char_split :
    (c : ℕ) (s : Bytes) (i : ℕ)
    → find_char c s ≡ some i
    → (s ≡ take i s ++ c ∷ drop (suc i) s) × Lacks c (take i s)
unfolding find_char
find_char_split c [] i h = cc
find_char_split c (d ∷ s) zero h = ground (arith)
find_char_split c (d ∷ s) (suc i) h = ground (arith, find_char_split c s i)
