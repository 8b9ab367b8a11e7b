-- ===== src/Persistence/Users/Grown.antt =====
-- A users table to which rows of plain users under new ids were added.
use pqc_api.Prelude.{◌≡◌, ◌≢◌, ◌∙◌, ap, sym, none, some, List, [], ◌∷◌, ◌++◌, arith, Bytes}
use pqc_api.Prelude.Int.{ℤ, pos}
use pqc_api.Persistence.Users.{User}
use pqc_api.Persistence.Users.Table.{named, with_id}

-- A row that is added with the default role, under an id that is free.
pub record Adds (us : List User) (row : User) (vs : List User) : Type 0 where
  pub added : vs ≡ us ++ row ∷ []
  pub plain : row.role ≡ pos 0
  pub new_id : with_id row.id us ≡ none

pub data Grown (us : List User) : List User → Type 0 where
  same : Grown us us
  more : {vs ws : List User} (row : User) → Grown us vs → Adds vs row ws → Grown us ws

pub Grown-trans : {us vs ws : List User} → Grown us vs → Grown vs ws → Grown us ws
Grown-trans g same = g
Grown-trans g (more row h a) = more row (Grown-trans g h) a

with_id-append_old :
    (id : ℤ) (us : List User) (u x : User)
    → with_id id us ≡ some u
    → with_id id (us ++ x ∷ []) ≡ some u
with_id-append_old id [] u x h = cc
with_id-append_old id (y ∷ us) u x h = ground (arith, with_id-append_old id us u x)

-- A row that is found is an old one or the one that was added.
with_id-append_cases :
    (id : ℤ) (us : List User) (u x : User)
    → with_id id (us ++ x ∷ []) ≡ some u
    → x ≢ u
    → with_id id us ≡ some u
with_id-append_cases id [] u x h differs = ground arith
with_id-append_cases id (y ∷ us) u x h differs = ground (arith, with_id-append_cases id us u x)

-- Every row that was there is there, unchanged.
pub Grown-keeps :
    {us vs : List User} (id : ℤ) (u : User)
    → Grown us vs
    → with_id id us ≡ some u
    → with_id id vs ≡ some u
Grown-keeps id u same h = h
Grown-keeps id u (more {vs} row g a) h =
    rw a.added (with_id-append_old id vs u row (Grown-keeps id u g h))

named-append_old :
    (name : Bytes) (us : List User) (u x : User)
    → named name us ≡ some u
    → named name (us ++ x ∷ []) ≡ some u
named-append_old name [] u x h = cc
named-append_old name (y ∷ us) u x h = ground (arith, named-append_old name us u x)

-- The row that a name finds stays the one that it finds.
pub Grown-named :
    {us vs : List User} (name : Bytes) (u : User)
    → Grown us vs
    → named name us ≡ some u
    → named name vs ≡ some u
Grown-named name u same h = h
Grown-named name u (more {vs} row g a) h =
    rw a.added (named-append_old name vs u row (Grown-named name u g h))

-- A row whose role is not the default was there.
pub Grown-privileged :
    {us vs : List User} (id : ℤ) (u : User)
    → Grown us vs
    → u.role ≢ pos 0
    → with_id id vs ≡ some u
    → with_id id us ≡ some u
Grown-privileged id u same special h = h
Grown-privileged id u (more {vs} row g a) special h = Grown-privileged id u g special (
    with_id-append_cases id vs u row (rw a.added at h)
      (λ e. special (ap (λ (v : User). v.role) (sym e) ∙ a.plain)))
