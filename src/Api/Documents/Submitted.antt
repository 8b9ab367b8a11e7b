-- ===== src/Api/Documents/Submitted.antt =====
-- `DocumentController::verifyExternal` of src/api/Controllers.cpp: a document, a signature and a key
-- that anybody submits.
use pqc_api.Prelude.{
  ℕ, ◌≡◌, ◌≢◌, refl, Bool, true, false, Option, none, some, List, [], ◌∷◌, if◌then◌else◌, is_empty,
  All, IsByte, Bytes, text, str_eq,
}
use pqc_api.Std.Outcome.{invalid_argument, undefined, Outcome, returns, throws}
use pqc_api.Std.Exec.{Exec, lift, ◌>>=◌}
use pqc_api.External.Openssl.{Openssl, Base64Laws}
use pqc_api.External.Evp.{Evp, SignatureLaws, PemLaws}
use pqc_api.External.Json.{Json, Doc, str, boolean, obj, end, field}
use pqc_api.External.Redis.{Redis}
use pqc_api.External.Postgres.{Postgres}
use pqc_api.Crypto.Signer as Dilithium
use pqc_api.Crypto.Signer.{
  Signer, is_ml_dsa_65, export_key_pem, export_public_key_pem, same_key, verify_with,
}
use pqc_api.Crypto.Signer.Keys.{IsPair, sign_bytes}
use pqc_api.Crypto.Signer.Pem.{verify_with_pem_own, is_own_public_key_own}
use pqc_api.Auth.World.{World}
use pqc_api.Api.Http.{File, Form, Request, Response, json_response, error_response}
use pqc_api.Api.Documents.{algorithm, base64_encode, base64_decode}
use pqc_api.Api.Documents.Signing.{base64_decode-encode}

-- The content of the first file part named "pdf", empty if there is none.
unfoldable pub find_pdf : List File → Bytes
find_pdf [] = []
find_pdf (f ∷ fs) = if str_eq f.item_name (text "pdf") then f.content else find_pdf fs

abbrev pub submitted_doc : Bool → Bool → Doc
submitted_doc valid server_key = obj (
    field (text "valid") (boolean valid) (
      field (text "algorithm") (str algorithm)
        (field (text "server_key") (boolean server_key) end)))

module _ (O : Openssl) (J : Json) (E : Evp) (signer : Signer E) (R : Redis) (D : Postgres) where
  abbrev reject : Bytes → ℕ → Exec (World R D) Response
  reject message code = lift (error_response J message code)

  -- What the handlers of `verifyExternal` answer to an exception.
  abbrev pub external_answer : Bytes → Outcome Bool → Exec (World R D) Response
  external_answer public_key_pem (returns valid) = do
    server_key ← lift (Dilithium.is_own_public_key E signer public_key_pem)
    lift (json_response J (submitted_doc valid server_key) 200)
  external_answer public_key_pem (throws (invalid_argument what)) = reject what 400
  external_answer public_key_pem (throws undefined) = lift (throws undefined)
  external_answer public_key_pem (throws e) = reject (text "Verification error") 500

  unfoldable pub verify_parts : Bytes → Bytes → Bytes → Exec (World R D) Response
  verify_parts pdf signature public_key_pem =
      let sig_bytes = base64_decode O signature in
      if is_empty sig_bytes
      then reject (text "Invalid base64 signature") 400
      else external_answer public_key_pem (Dilithium.verify_with_pem E pdf sig_bytes public_key_pem)

  abbrev pub verify_fields : Bytes → Option Bytes → Option Bytes → Exec (World R D) Response
  verify_fields pdf none key = reject (text "Missing signature field") 400
  verify_fields pdf (some signature) none = reject (text "Missing public_key field") 400
  verify_fields pdf (some signature) (some key) = verify_parts pdf signature key

  abbrev pub verify_form : Option Form → Exec (World R D) Response
  verify_form none = reject (text "Expected multipart/form-data") 400
  verify_form (some form) =
      let pdf = find_pdf form.files in
      if is_empty pdf
      then reject (text "Missing pdf field") 400
      else verify_fields pdf (form.parameters (text "signature"))
          (form.parameters (text "public_key"))

  -- `DocumentController::verifyExternal`
  unfoldable pub verify_external : Request → Exec (World R D) Response
  verify_external req = verify_form req.form

module _ (O : Openssl) (J : Json) (E : Evp) (signer : Signer E) (R : Redis) (D : Postgres)
    (B : Base64Laws O) (SL : SignatureLaws E) (PL : PemLaws E) where
  verify_parts_lem :
      (content signature pem : Bytes)
      → All IsByte signature
      → signature ≢ []
      → verify_parts O J E signer R D content (base64_encode O signature) pem
        ≡ external_answer O J E signer R D pem (Dilithium.verify_with_pem E content signature pem)
  unfolding verify_parts
  verify_parts_lem content [] pem bytes nonempty = absurd (nonempty refl)
  verify_parts_lem content (b ∷ signature) pem bytes nonempty =
      rw (base64_decode-encode O B (b ∷ signature) bytes nonempty) refl

  -- A form with a document that is not empty, a signature that the signer made of it with its pair
  -- of keys, in base64, and the signer's public key as it is written in PEM: `verifyExternal`
  -- answers 200, reports the signature as valid and the key as the server's own, and changes
  -- nothing. The key is an ML-DSA-65 key, memory buffers can be allocated, and a key that was
  -- written is taken to read as one that behaves alike.
  pub verify_external_own :
      (req : Request) (form : Form) (w : World R D) (content signature pem : Bytes)
      (pair : IsPair E signer)
      → req.form ≡ some form
      → find_pdf form.files ≡ content
      → is_empty content ≡ false
      → Dilithium.sign E signer content ≡ returns signature
      → E.pem_write_pubkey pair.copy ≡ some pem
      → is_ml_dsa_65 E pair.copy ≡ true
      → E.bio_new ≡ true
      → form.parameters (text "signature") ≡ some (base64_encode O signature)
      → form.parameters (text "public_key") ≡ some pem
      → verify_external O J E signer R D req w ≡ (json_response J (submitted_doc true true) 200, w)
  unfolding verify_external
  verify_external_own req form w content signature pem pair parsed located filled signed written
        kind room sig key =
      let (sig_bytes, sig_nonempty) = sign_bytes E SL signer content signature pair signed in
      rw
        (
          parsed,
          located,
          filled,
          sig,
          key,
          verify_parts_lem content signature pem sig_bytes sig_nonempty,
          verify_with_pem_own E SL PL signer content signature pem pair signed written kind room,
          is_own_public_key_own E PL signer pem pair written room,
        )
        refl
