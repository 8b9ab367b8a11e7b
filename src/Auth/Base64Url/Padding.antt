-- ===== src/Auth/Base64Url/Padding.antt =====
-- The loop `while (s.size() % 4) s += '=';` of base64url_decode in src/auth/AuthManager.cpp.
use pqc_api.Prelude.{
  ℕ, zero, suc, ◌+◌, ◌*◌, ◌%◌, ◌≤◌, ◌≡◌, sym, ◌∙◌, ◌++◌, [], ◌∷◌, arith, Bytes, length, replicate,
  length-append, length-replicate, append-nil, append_assoc,
}
use pqc_api.Auth.Base64Url.{pad_loop, restore_padding}

-- Where `n` bytes are missing, the loop has ended after `n` rounds.
pad_loop_rounds :
    (fuel n : ℕ) (s : Bytes)
    → n ≤ fuel
    → n ≤ 3
    → (length s + n) % 4 ≡ 0
    → pad_loop fuel s ≡ s ++ replicate n b'='
unfolding pad_loop
pad_loop_rounds zero zero s h g e = sym (append-nil s)
pad_loop_rounds zero (suc n) s h g e = absurd (omega arith)
pad_loop_rounds (suc fuel) zero s h g e = ground (arith, append-nil s)
pad_loop_rounds (suc fuel) (suc n) s h g e =
    let longer = length-append s (b'=' ∷ []) in
    let rest =
      pad_loop_rounds fuel n (s ++ b'=' ∷ []) (omega arith) (omega arith) (omega (arith, longer)) in
    ground (arith, rest, append_assoc s (b'=' ∷ []) (replicate n b'='))

-- The number of bytes that are missing.
abbrev missing : Bytes → ℕ
missing s = 3 * length s % 4

pad_loop-missing :
    (s : Bytes) (fuel : ℕ) → 3 ≤ fuel → pad_loop fuel s ≡ s ++ replicate (missing s) b'='
pad_loop-missing s fuel h =
    pad_loop_rounds fuel (missing s) s (omega arith) (omega arith) (omega arith)

-- The loop ends: it appends at most three `=`, after which the length is a multiple of four, and with
-- more fuel than three it returns the same text.
pub restore_padding_ends :
    (s : Bytes)
    → ((n : ℕ) × (n ≤ 3) × (restore_padding s ≡ s ++ replicate n b'='))
      × (length (restore_padding s) % 4 ≡ 0)
      × ((fuel : ℕ) → 3 ≤ fuel → pad_loop fuel s ≡ restore_padding s)
unfolding restore_padding
restore_padding_ends s =
    let ended = pad_loop-missing s 3 (omega arith) in
    let padded = length-append s (replicate (missing s) b'=') in
    let pads = length-replicate {A = ℕ} (missing s) b'=' in
    (
      (missing s, omega arith, ended),
      rw ended (omega (arith, padded, pads)),
      λ fuel h. pad_loop-missing s fuel h ∙ sym ended,
    )
