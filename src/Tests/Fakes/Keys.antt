-- ===== src/Tests/Fakes/Keys.antt =====
-- A key whose signature is a checksum.
use pqc_api.Prelude.{
  ℕ, refl, ◌∙◌, true, Option, none, some, [], ◌∷◌, arith, if◌then◌else◌, Bytes, text, str_eq,
  str_eq_refl,
}
use pqc_api.External.Evp.{Evp, SignatureLaws, PemLaws}
use pqc_api.Tests.Fakes.Crypto.{checksum}
use mathlib.Core.Option.{some-injective}

abbrev pub read_key : Bytes → Option ℕ
read_key [] = none
read_key (c ∷ s) = some c

-- A key is a number. `key.pem` holds one, `empty.pem` holds none, and there is no other file.
abbrev pub evp : Evp
evp = record {
  Key = ℕ;
  md_ctx_new = true;
  bio_new = true;
  key_ctx_new = λ name. true;
  keygen_init = λ name. true;
  generate = λ name. some 5;
  dup = λ k. some k;
  is_a = λ k name. str_eq name (text "mldsa65");
  fopen = λ path.
      if str_eq path (text "key.pem")
      then some (text "K")
      else if str_eq path (text "empty.pem")
      then some []
      else none;
  pem_read_private = read_key;
  pem_read_pubkey = read_key;
  pem_write_private = λ k. some (k ∷ []);
  pem_write_pubkey = λ k. some (k ∷ []);
  sign_init = λ k. true;
  sign_size = λ k message. some 1;
  sign_run = λ k message. some (checksum (k ∷ message) ∷ []);
  verify_init = λ k. true;
  verify_run = λ k signature message. str_eq signature (checksum (k ∷ message) ∷ []);
}

pub evp-SignatureLaws : SignatureLaws evp
unfolding checksum
evp-SignatureLaws = record {
  sign_bytes = λ k message signature e. rw (← some-injective _ signature e) (omega arith, tt);
  sign_nonempty =
      λ k message signature e nothing. let same = some-injective _ signature e ∙ nothing in cc;
  verify_init-dup = λ k k' e. refl;
  verify-sign = λ k k' message signature copied e.
      rw (← some-injective k k' copied, ← some-injective _ signature e) (str_eq_refl _);
}

pub evp-PemLaws : PemLaws evp
evp-PemLaws = record {
  read_back = λ k pem. k;
  read-write = λ k pem e. rw (← some-injective (k ∷ []) pem e) refl;
  write-read_back = λ k pem e. e;
  is_a-read_back = λ k pem name e. refl;
  verify_init-read_back = λ k pem e. refl;
  verify_run-read_back = λ k pem signature message e. refl;
}
