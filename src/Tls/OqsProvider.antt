-- ===== src/Tls/OqsProvider.antt =====
-- src/tls/OQSProvider.cpp. A provider handle is a pointer; one that was unloaded stays in its member.
use pqc_api.Prelude.{◌≡◌, refl, Bool, true, false, if◌then◌else◌, Bytes, text, Bool-cases, inl, inr}
use mathlib.Core.Path.{subst}
use pqc_api.Std.Outcome.{Outcome, returns, throws, undefined, ◌>>=◌}
use pqc_api.Crypto.Signer.{Pointer, null, freed, live}

pub record OqsProvider : Type 0 where
  pub loaded : Bool
  pub default_provider : Pointer (Unit {0})
  pub oqs_provider : Pointer (Unit {0})

-- The singleton before its first call.
abbrev pub initial : OqsProvider
initial = record { loaded = false; default_provider = null; oqs_provider = null }

-- `OSSL_PROVIDER_unload` of a handle that is not null.
abbrev pub unload_handle : Pointer (Unit {0}) → Outcome (Pointer (Unit {0}))
unload_handle null = returns null
unload_handle (live h) = returns freed
unload_handle freed = throws undefined

-- `loads` says which providers `OSSL_PROVIDER_load` finds.
abbrev pub load_oqs : (Bytes → Bool) → OqsProvider → Bool × OqsProvider
load_oqs loads s =
    if loads (text "oqsprovider")
    then (true, record { loaded = true; default_provider = live tt; oqs_provider = live tt })
    else (false, record { loaded = s.loaded; default_provider = freed; oqs_provider = null })

-- `OQSProvider::load`
unfoldable pub load : (Bytes → Bool) → OqsProvider → Bool × OqsProvider
load loads s =
    if s.loaded
    then (true, s)
    else if loads (text "default")
    then load_oqs loads s
    else (false, record s { default_provider = null })

-- `OQSProvider::unload`
unfoldable pub unload : OqsProvider → Outcome OqsProvider
unload s =
    let unloaded = unload_handle s.oqs_provider >>= λ oqs.
    unload_handle s.default_provider >>= λ default_handle.
    returns (record { loaded = false; default_provider = default_handle; oqs_provider = oqs }) in
    if s.loaded then unloaded else returns s

-- The states that calls of `load` and `unload` lead to, whatever is installed at each call.
pub data Reachable : OqsProvider → Type 0 where
  start : Reachable initial
  by_load : (loads : Bytes → Bool) (s : OqsProvider) → Reachable s → Reachable (load loads s).1
  by_unload : (s s' : OqsProvider) → Reachable s → unload s ≡ returns s' → Reachable s'

-- The handles of providers that are loaded are live.
abbrev IsSound : OqsProvider → Type 0
IsSound s = s.loaded ≡ true → (s.default_provider ≡ live tt) × (s.oqs_provider ≡ live tt)

abbrev provider_at : Bool → Pointer (Unit {0}) → Pointer (Unit {0}) → OqsProvider
provider_at l d o = record { loaded = l; default_provider = d; oqs_provider = o }

returns-injective : {s t : OqsProvider} → returns s ≡ returns t → s ≡ t
returns-injective e = cc

load-IsSound :
    (loads : Bytes → Bool) (l : Bool) (d o : Pointer (Unit {0}))
    → IsSound (provider_at l d o)
    → IsSound (load loads (provider_at l d o)).1
unfolding load
load-IsSound loads true d o sound = sound
load-IsSound loads false d o sound = elim (Bool-cases (loads (text "default"))) [
  | inl found ↦ elim (Bool-cases (loads (text "oqsprovider"))) [
    | inl both ↦ rw (found, both) (λ e. (refl, refl))
    | inr one ↦ rw (found, one) (λ e. cc)
  ]
  | inr missing ↦ rw missing (λ e. cc)
]

unload-IsSound :
    (l : Bool) (d o : Pointer (Unit {0})) (s' : OqsProvider)
    → IsSound (provider_at l d o)
    → unload (provider_at l d o) ≡ returns s'
    → IsSound s'
unfolding unload
unload-IsSound false d o s' sound e = subst IsSound (returns-injective e) sound
unload-IsSound true d o s' sound e =
    let (default_live, oqs_live) = sound refl in
    let after = rw (default_live, oqs_live) at e in
    subst IsSound (returns-injective after) (λ f. cc)

Reachable-IsSound : (s : OqsProvider) → Reachable s → IsSound s
Reachable-IsSound s start = λ e. cc
Reachable-IsSound s (by_load loads t r) =
    load-IsSound loads t.loaded t.default_provider t.oqs_provider (Reachable-IsSound t r)
Reachable-IsSound s (by_unload t s' r e) =
    unload-IsSound t.loaded t.default_provider t.oqs_provider s' (Reachable-IsSound t r) e

-- In every state that calls of `load` and `unload` lead to, whatever is installed at each call,
-- `unload` touches no provider that was unloaded before, and no provider counts as loaded
-- afterwards.
pub unload-Reachable :
    (s : OqsProvider)
    → Reachable s
    → (s' : OqsProvider) × (unload s ≡ returns s') × (s'.loaded ≡ false)
unfolding unload
unload-Reachable s r = elim (Bool-cases s.loaded) [
  | inr off ↦ (s, rw off refl, off)
  | inl on ↦
      let (default_live, oqs_live) = Reachable-IsSound s r on in
      (provider_at false freed freed, rw (on, default_live, oqs_live) refl, refl)
]
