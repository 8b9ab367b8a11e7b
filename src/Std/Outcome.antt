-- ===== src/Std/Outcome.antt =====
-- Exceptions as values, and behaviour that C++ leaves undefined as one value more, which no handler
-- catches.
use pqc_api.Prelude.{◌≡◌, refl, ◌⊎◌, inl, inr, Bytes, Option, none, some}

pub data Exception : Type 0 where
  json_error sql_error out_of_range undefined : Exception
  invalid_argument runtime_error : Bytes → Exception

pub data Outcome {ℓ} (A : Type ℓ) : Type ℓ where
  returns : A → Outcome A
  throws : Exception → Outcome A

-- A library call that throws `e` where it has no result.
abbrev pub or_throw {ℓ} : {A : Type ℓ} → Exception → Option A → Outcome A
or_throw e none = throws e
or_throw e (some a) = returns a

infixl 5 ◌>>=◌
abbrev pub ◌>>=◌ {ℓ κ} : {A : Type ℓ} {B : Type κ} → Outcome A → (A → Outcome B) → Outcome B
returns a >>= f = f a
throws e >>= f = throws e

pub Outcome-cases {ℓ} :
    {A : Type ℓ} (r : Outcome A) → ((a : A) × (r ≡ returns a)) ⊎ ((e : Exception) × (r ≡ throws e))
Outcome-cases (returns a) = inl (a, refl)
Outcome-cases (throws e) = inr (e, refl)
