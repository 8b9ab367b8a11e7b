-- ===== src/Std/Optional.antt =====
-- Chains of optional results: `none` where a step gives up.
use pqc_api.Prelude.{◌≡◌, refl, Bool, true, false, Option, none, some, if◌then◌else◌}

infixl 5 ◌>>=◌
abbrev pub ◌>>=◌ {ℓ κ} : {A : Type ℓ} {B : Type κ} → Option A → (A → Option B) → Option B
none >>= f = none
some a >>= f = f a

pub >>=-eq-some {ℓ κ} :
    {A : Type ℓ} {B : Type κ} (m : Option A) (f : A → Option B) {b : B}
    → (m >>= f) ≡ some b
    → (a : A) × (m ≡ some a) × (f a ≡ some b)
>>=-eq-some none f h = cc
>>=-eq-some (some a) f h = (a, refl, h)

-- `if (b) return false;` before the rest.
pub refuse-eq-some {ℓ} :
    {A : Type ℓ} (b : Bool) (m : Option A) {a : A}
    → (if b then none else m) ≡ some a
    → (b ≡ false) × (m ≡ some a)
refuse-eq-some true m h = cc
refuse-eq-some false m h = (refl, h)

-- `if (!b) return false;` before the rest.
pub require-eq-some {ℓ} :
    {A : Type ℓ} (b : Bool) (m : Option A) {a : A}
    → (if b then m else none) ≡ some a
    → (b ≡ true) × (m ≡ some a)
require-eq-some true m h = (refl, h)
require-eq-some false m h = cc
