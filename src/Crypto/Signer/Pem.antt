-- ===== src/Crypto/Signer/Pem.antt =====
-- Public keys that are exported as PEM and submitted again.
use pqc_api.Prelude.{◌≡◌, ◌∙◌, refl, true, false, some, Bytes, text, str_eq_refl}
use pqc_api.Std.Outcome.{returns}
use pqc_api.External.Evp.{Evp, SignatureLaws, PemLaws}
use pqc_api.Crypto.Signer.{
  Signer, live, sign, verify, verify_with, verify_with_pem, is_ml_dsa_65, export_key_pem,
  export_public_key_pem, same_key, is_own_public_key,
}
use pqc_api.Crypto.Signer.Keys.{IsPair, verify-sign}

module _ (E : Evp) (SL : SignatureLaws E) (PL : PemLaws E) where
  is_ml_dsa_65-read_back :
      (k : E.Key) (pem : Bytes)
      → E.pem_write_pubkey k ≡ some pem
      → is_ml_dsa_65 E (PL.read_back k pem) ≡ is_ml_dsa_65 E k
  unfolding is_ml_dsa_65
  is_ml_dsa_65-read_back k pem written =
      rw
        (
          PL.is_a-read_back k pem (text "mldsa65") written,
          PL.is_a-read_back k pem (text "ML-DSA-65") written,
        )
        refl

  verify_with-read_back :
      (k : E.Key) (pem message signature : Bytes)
      → E.pem_write_pubkey k ≡ some pem
      → verify_with E (PL.read_back k pem) message signature ≡ verify_with E k message signature
  unfolding verify_with
  verify_with-read_back k pem message signature written =
      rw
        (
          PL.verify_init-read_back k pem written,
          PL.verify_run-read_back k pem signature message written,
        )
        refl

  verify_with_copy :
      (s : Signer E) (message signature : Bytes) (pair : IsPair E s)
      → sign E s message ≡ returns signature
      → verify_with E pair.copy message signature ≡ true
  unfolding verify
  verify_with_copy s message signature pair signed =
      let valid = verify-sign E SL s message signature pair signed in
      let read = rw pair.public_live at valid in cc

  -- A signature of the signer verifies under its exported public key.
  pub verify_with_pem_own :
      (s : Signer E) (message signature pem : Bytes) (pair : IsPair E s)
      → sign E s message ≡ returns signature
      → E.pem_write_pubkey pair.copy ≡ some pem
      → is_ml_dsa_65 E pair.copy ≡ true
      → E.bio_new ≡ true
      → verify_with_pem E message signature pem ≡ returns true
  unfolding verify_with_pem
  verify_with_pem_own s message signature pem pair signed written kind room =
      rw
        (
          room,
          PL.read-write pair.copy pem written,
          is_ml_dsa_65-read_back pair.copy pem written,
          kind,
          verify_with-read_back pair.copy pem message signature written,
          verify_with_copy s message signature pair signed,
        )
        refl

module _ (E : Evp) (PL : PemLaws E) where
  export_key_pem_lem :
      (k : E.Key) (pem : Bytes)
      → E.pem_write_pubkey k ≡ some pem
      → E.bio_new ≡ true
      → export_key_pem E (live k) false ≡ returns pem
  unfolding export_key_pem
  export_key_pem_lem k pem written room = rw (room, written) refl

  same_key_lem :
      (s : Signer E) (key copy : E.Key) (pem : Bytes)
      → s.public_key ≡ live copy
      → E.pem_write_pubkey key ≡ some pem
      → E.pem_write_pubkey copy ≡ some pem
      → E.bio_new ≡ true
      → same_key E key s ≡ returns true
  unfolding same_key export_public_key_pem
  same_key_lem s key copy pem public written written' room =
      rw
        (
          export_key_pem_lem key pem written room,
          public,
          export_key_pem_lem copy pem written' room,
          str_eq_refl pem,
        )
        refl

  is_own_public_key_read :
      (s : Signer E) (key copy : E.Key) (pem : Bytes)
      → s.public_key ≡ live copy
      → E.pem_read_pubkey pem ≡ some key
      → E.bio_new ≡ true
      → is_own_public_key E s pem ≡ same_key E key s
  unfolding is_own_public_key
  is_own_public_key_read s key copy pem public read room = rw (public, room, read) refl

  -- The exported public key is recognised as the signer's own.
  pub is_own_public_key_own :
      (s : Signer E) (pem : Bytes) (pair : IsPair E s)
      → E.pem_write_pubkey pair.copy ≡ some pem
      → E.bio_new ≡ true
      → is_own_public_key E s pem ≡ returns true
  is_own_public_key_own s pem pair written room =
      is_own_public_key_read s (PL.read_back pair.copy pem) pair.copy pem pair.public_live
        (PL.read-write pair.copy pem written) room
      ∙ same_key_lem s (PL.read_back pair.copy pem) pair.copy pem pair.public_live
          (PL.write-read_back pair.copy pem written) written room
