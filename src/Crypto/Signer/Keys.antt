-- ===== src/Crypto/Signer/Keys.antt =====
-- The keys of a signer: which are dangling, and what it signs it verifies.
use pqc_api.Prelude.{
  [], All, IsByte, ◌≡◌, ◌≢◌, refl, inl, inr, true, false, Option, none, some, Bytes, Option-cases,
  Bool-cases,
}
use pqc_api.Std.Outcome.{returns, throws, undefined}
use pqc_api.Std.Strings.{c_str}
use pqc_api.External.Evp.{Evp, SignatureLaws}
use pqc_api.Crypto.Signer.{
  Pointer, null, freed, live, Signer, pointer_of, destroy, load_private_key, read_private,
  sign_with, sign, verify_with, verify,
}

module _ (E : Evp) where
  -- Neither member dangles.
  abbrev pub IsValid : Signer E → Type 0
  IsValid s = (s.private_key ≢ freed) × (s.public_key ≢ freed)

  -- The public key is a copy of the private one.
  pub record IsPair (s : Signer E) : Type 0 where
    pub key : E.Key
    pub copy : E.Key
    pub private_live : s.private_key ≡ live key
    pub public_live : s.public_key ≡ live copy
    pub copied : E.dup key ≡ some copy

  pointer_of-live : (k : Option E.Key) → pointer_of E k ≢ freed
  pointer_of-live none = λ e. cc
  pointer_of-live (some k) = λ e. cc

  abbrev released : Pointer E.Key → Pointer E.Key
  released null = null
  released _ = freed

  pub load_private_key_opened :
      (p q : Pointer E.Key) (pem_path contents : Bytes)
      → p ≢ freed
      → q ≢ freed
      → E.fopen (c_str pem_path) ≡ some contents
      → load_private_key E pem_path (record { private_key = p; public_key = q })
        ≡ read_private E
            (E.pem_read_private contents)
            (record { private_key = released p; public_key = released q })
  unfolding load_private_key
  load_private_key_opened freed q pem_path contents hp hq e = absurd (hp refl)
  load_private_key_opened p freed pem_path contents hp hq e = absurd (hq refl)
  load_private_key_opened null null pem_path contents hp hq e = rw (e, load_private_key)
  load_private_key_opened null (live k) pem_path contents hp hq e = rw (e, load_private_key)
  load_private_key_opened (live j) null pem_path contents hp hq e = rw (e, load_private_key)
  load_private_key_opened (live j) (live k) pem_path contents hp hq e = rw (e, load_private_key)

  pub load_private_key_missing :
      (s : Signer E) (pem_path : Bytes)
      → E.fopen (c_str pem_path) ≡ none
      → load_private_key E pem_path s ≡ (returns false, s)
  unfolding load_private_key
  load_private_key_missing s pem_path e = rw (e, load_private_key)

  read_private-IsPair :
      (k : Option E.Key) (s : Signer E)
      → (read_private E k s).0 ≡ returns true
      → IsPair (read_private E k s).1
  read_private-IsPair none s e = cc
  read_private-IsPair (some k) s e = elim (Option-cases (E.dup k)) [
    | inl failed ↦ let wrong = rw failed at e in cc
    | inr (k', copied) ↦ record {
      key = k;
      copy = k';
      private_live = refl;
      public_live = rw copied;
      copied = copied;
    }
  ]

  -- `loadPrivateKey` on a signer without dangling keys: if it returns true, the signer holds a key
  -- and a copy of it.
  pub load_private_key-IsPair :
      (s : Signer E) (pem_path : Bytes)
      → IsValid s
      → (load_private_key E pem_path s).0 ≡ returns true
      → IsPair (load_private_key E pem_path s).1
  load_private_key-IsPair s pem_path (p, q) e = elim (Option-cases (E.fopen (c_str pem_path))) [
    | inl missing ↦ let wrong = rw (load_private_key_missing s pem_path missing) at e in cc
    | inr (contents, opened) ↦
        let same =
          load_private_key_opened s.private_key s.public_key pem_path contents p q opened in
        let reads = rw same at e in
        rw same (read_private-IsPair (E.pem_read_private contents) _ reads)
  ]

  -- If a signer that has a public key, and no dangling private key, opens a private key file in
  -- which no key can be read, `loadPrivateKey` returns false and leaves the public key dangling:
  -- `verify` then reads a freed key, and the destructor frees it a second time.
  pub load_private_key_dangling :
      (s : Signer E) (pem_path contents message signature : Bytes) (k : E.Key)
      → s.private_key ≢ freed
      → s.public_key ≡ live k
      → E.fopen (c_str pem_path) ≡ some contents
      → E.pem_read_private contents ≡ none
      → ((load_private_key E pem_path s).0 ≡ returns false)
        × (verify E (load_private_key E pem_path s).1 message signature ≡ throws undefined)
        × ((destroy E (load_private_key E pem_path s).1).0 ≡ throws undefined)
  unfolding verify destroy
  load_private_key_dangling s pem_path contents message signature k p q opened unread =
      let same =
        load_private_key_opened s.private_key s.public_key pem_path contents p (rw q (λ e. cc))
          opened in
      rw (same, unread, q) (refl, refl, refl)

  sign_with_returns :
      (key : E.Key) (message signature : Bytes)
      → sign_with E key message ≡ returns signature
      → (E.md_ctx_new ≡ true) × (E.sign_run key message ≡ some signature)
  unfolding sign_with
  sign_with_returns key message signature e = elim (Bool-cases E.md_ctx_new) [
    | inr full ↦ let wrong = rw full at e in cc
    | inl room ↦ elim (Bool-cases (E.sign_init key)) [
      | inr failed ↦ let wrong = rw (room, failed) at e in cc
      | inl ready ↦ elim (Option-cases (E.sign_size key message)) [
        | inl failed ↦ let wrong = rw (room, ready, failed) at e in cc
        | inr (size, sized) ↦ elim (Option-cases (E.sign_run key message)) [
          | inl failed ↦ let wrong = rw (room, ready, sized, failed) at e in cc
          | inr (found, ran) ↦ let same = rw (room, ready, sized, ran) at e in (room, cc)
        ]
      ]
    ]
  ]

  -- What a signer signs with one key of a pair, it verifies with the other. A signature is taken to
  -- verify under a copy of its key.
  pub verify-sign :
      (L : SignatureLaws E) (s : Signer E) (message signature : Bytes)
      → IsPair s
      → sign E s message ≡ returns signature
      → verify E s message signature ≡ returns true
  unfolding sign verify verify_with
  verify-sign L s message signature pair e =
      let signed = rw pair.private_live at e in
      let (room, ran) = sign_with_returns pair.key message signature signed in
      rw
        (
          pair.public_live,
          room,
          L.verify_init-dup pair.key pair.copy pair.copied,
          L.verify-sign pair.key pair.copy message signature pair.copied ran,
        )
        refl

  pub sign_bytes :
      (L : SignatureLaws E) (s : Signer E) (message signature : Bytes)
      → IsPair s
      → sign E s message ≡ returns signature
      → All IsByte signature × (signature ≢ [])
  unfolding sign
  sign_bytes L s message signature pair e =
      let signed = rw pair.private_live at e in
      let (room, ran) = sign_with_returns pair.key message signature signed in
      (L.sign_bytes pair.key message signature ran, L.sign_nonempty pair.key message signature ran)
