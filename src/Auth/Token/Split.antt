-- ===== src/Auth/Token/Split.antt =====
-- A token splits into parts exactly where its text is these parts with dots between them.
use pqc_api.Prelude.{
  ℕ, zero, suc, ◌+◌, ◌-◌, ◌≡◌, refl, sym, ◌∙◌, ap, inl, inr, some, [], ◌∷◌, ◌++◌, arith,
  append_assoc, take, drop, take-append, drop-append_cons, Lacks, Bytes, Option-cases,
}
use pqc_api.Std.Strings.{find_char, find_char-append, find_char_split}
use pqc_api.Std.Optional.{◌>>=◌, >>=-eq-some}
use pqc_api.Auth.Token.Build.{dot, signing_input}
use pqc_api.Auth.Token.Parse.{split_token}
use mathlib.Core.Option
use Prim.Native.Nat.add

drop-nil : (n : ℕ) → drop {A = ℕ} n [] ≡ []
drop-nil zero = refl
drop-nil (suc n) = refl

drop-drop : (a b : ℕ) (s : Bytes) → drop (a + b) s ≡ drop b (drop a s)
drop-drop zero b s = rw add.zero
drop-drop (suc a) b [] = drop-nil _ ∙ sym (drop-nil b)
drop-drop (suc a) b (c ∷ s) = rw add.suc (drop-drop a b s)

-- The second cut, by its position in what follows the first dot.
abbrev cut : Bytes → ℕ → ℕ → Bytes × Bytes × Bytes
cut t p1 i = (take p1 t, take i (drop (suc p1) t), drop (suc i) (drop (suc p1) t))

second_length : (p1 i : ℕ) → suc p1 + i - p1 - 1 ≡ i
second_length p1 i = omega arith

second_end : (p1 i : ℕ) → suc (suc p1 + i) ≡ suc p1 + suc i
second_end p1 i = omega arith

split_token-cut :
    (t : Bytes)
    → split_token t
      ≡ (find_char dot t >>= λ p1. Option.map (cut t p1) (find_char dot (drop (suc p1) t)))
unfolding split_token
split_token-cut t = elim (Option-cases (find_char dot t)) [
  | inl e ↦ rw e
  | inr (p1, e) ↦ rw e (elim (Option-cases (find_char dot (drop (suc p1) t))) [
    | inl e' ↦ rw e'
    | inr (i, e') ↦ rw (e', second_length, second_end, drop-drop (suc p1) (suc i) t)
  ])
]

pub split_token-append :
    (h p sig : Bytes)
    → Lacks dot h
    → Lacks dot p
    → split_token (signing_input h p ++ dot ∷ sig) ≡ some (h, p, sig)
split_token-append h p sig lh lp = rw (
  split_token-cut,
  append_assoc h (dot ∷ p) (dot ∷ sig),
  find_char-append dot h (p ++ dot ∷ sig) lh,
  drop-append_cons h (p ++ dot ∷ sig) dot,
  find_char-append dot p sig lp,
  take-append h,
  drop-append_cons h (p ++ dot ∷ sig) dot,
  take-append p,
  drop-append_cons p,
)

parts_form :
    (t a b c h p sig : Bytes)
    → a ≡ h
    → b ≡ p
    → c ≡ sig
    → t ≡ a ++ dot ∷ (b ++ dot ∷ c)
    → t ≡ signing_input h p ++ dot ∷ sig
parts_form t a b c h p sig ha hb hc e =
    rw (append_assoc h (dot ∷ p) (dot ∷ sig), ← ha, ← hb, ← hc) e

pub split_token_sound :
    (t h p sig : Bytes)
    → split_token t ≡ some (h, p, sig)
    → (t ≡ signing_input h p ++ dot ∷ sig) × Lacks dot h × Lacks dot p
split_token_sound t h p sig e =
    let (p1, first, e1) = >>=-eq-some (find_char dot t) _ (sym (split_token-cut t) ∙ e) in
    let (i, second, e2) =
      (Option.map-eq-some_iff (cut t p1) (find_char dot (drop (suc p1) t))).0 e1 in
    let h_eq = ap (λ (x : Bytes × Bytes × Bytes). x.0) e2 in
    let p_eq = ap (λ (x : Bytes × Bytes × Bytes). x.1) e2 in
    let sig_eq = ap (λ (x : Bytes × Bytes × Bytes). x.2) e2 in
    let (at1, lacks1) = find_char_split dot t p1 first in
    let (at2, lacks2) = find_char_split dot (drop (suc p1) t) i second in
    (
      parts_form t _ _ _ h p sig h_eq p_eq sig_eq (at1 ∙ ap (λ r. take p1 t ++ dot ∷ r) at2),
      rw (← h_eq) lacks1,
      rw (← p_eq) lacks2,
    )
