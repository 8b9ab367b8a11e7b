-- ===== src/Std/Exec.antt =====
-- Methods that change a state and may throw. What was written before a throw stays written, so the
-- state comes back beside the exception too.
use pqc_api.Std.Outcome.{Outcome, returns, throws}

abbrev pub Exec : Type 0 → Type 0 → Type 0
Exec S A = S → Outcome A × S

module _ {S A : Type 0} where
  abbrev pub pure : A → Exec S A
  pure a s = (returns a, s)

  -- A computation that reads and writes no state.
  abbrev pub lift : Outcome A → Exec S A
  lift r s = (r, s)

module _ {S A B : Type 0} where
  abbrev pub continue : Outcome A → (A → Exec S B) → Exec S B
  continue (returns a) f s = f a s
  continue (throws e) f s = (throws e, s)

  infixl 5 ◌>>=◌ ◌>>◌
  abbrev pub ◌>>=◌ : Exec S A → (A → Exec S B) → Exec S B
  ◌>>=◌ m f s = let (r, s') = m s in continue r f s'

  abbrev pub ◌>>◌ : Exec S A → Exec S B → Exec S B
  m >> n = m >>= λ _. n
