-- ===== src/Api/Documents.antt =====
-- `DocumentController` of src/api/Controllers.cpp.
pub mod Submitted
pub mod Ownership
pub mod Signing
pub mod Storing
pub mod Format
pub mod Listing
pub mod Refused
use pqc_api.Prelude.{
  ℕ, ◌-◌, Bool, true, false, ◌&&◌, Option, none, some, List, [], ◌∷◌, ltb, if◌then◌else◌, length,
  take, drop, is_empty, Bytes, text, str_eq,
}
use pqc_api.Prelude.Int.{ℤ, pos, ltb_ℤ}
use pqc_api.Std.Outcome.{invalid_argument, undefined, Outcome, returns, throws}
use pqc_api.Std.Exec.{Exec, pure, lift, ◌>>=◌}
use pqc_api.Std.Strings.{contains}
use pqc_api.Std.Decimal.{stoi}
use pqc_api.External.Openssl.{Openssl}
use pqc_api.External.Evp.{Evp}
use pqc_api.External.Json.{Json, Doc, str, num, boolean, arr, obj, Items, nil, item, end, field}
use pqc_api.External.Redis.{Redis}
use pqc_api.External.Postgres.{Postgres}
use pqc_api.Persistence.Documents.{
  Document, save, find_by_id, find_by_user_id, get_pdf_data, owned_by, delete_by_id,
}
use pqc_api.Crypto.Signer as Dilithium
use pqc_api.Crypto.Signer.{Signer}
use pqc_api.Auth.World.{World, on_db, on_db_caught}
use pqc_api.Auth.SessionId.{to_hex}
use pqc_api.Auth.Base64Url.{read_or_empty}
use pqc_api.Api.Http.{
  File, Form, Request, Response, application_pdf, json_response, error_response, attempt, with_user,
}
use pqc_api.Api.Disposition.{content_disposition}

abbrev pub algorithm : Bytes
algorithm = text "ML-DSA-65"

module _ (O : Openssl) where
  unfoldable pub sha256_hex : Bytes → Bytes
  sha256_hex s = to_hex (O.sha256 s)

  unfoldable pub base64_encode : Bytes → Bytes
  base64_encode s = O.bio_encode s

  -- `if (len < 0) return {};`
  unfoldable pub base64_decode : Bytes → Bytes
  base64_decode encoded = read_or_empty (O.bio_decode encoded)

-- The last 1024 bytes.
unfoldable pub tail_of : Bytes → Bytes
tail_of content =
    if ltb 1024 (length content) then drop (length content - 1024) content else content

unfoldable pub is_pdf : Bytes → Bool
is_pdf content =
    contains (text "%PDF-") (take 1024 content) && contains (text "%%EOF") (tail_of content)

abbrev pub name_or_default : Bytes → Bytes
name_or_default [] = text "document.pdf"
name_or_default (c ∷ s) = c ∷ s

abbrev pub pdf_response : Bytes → Bytes → Response
pdf_response filename body = record {
  status = 200;
  content_type = application_pdf;
  content_disposition = some (content_disposition filename);
  body = body;
}

abbrev pub signed_doc : ℤ → Bytes → Bytes → Bytes → Doc
signed_doc doc_id filename sha256 sig_b64 = obj (
    field (text "doc_id") (num doc_id) (
      field (text "filename") (str filename) (
        field (text "sha256") (str sha256)
          (field (text "signature") (str sig_b64) (field (text "algorithm") (str algorithm) end)))))

unfoldable pub listed : List Document → Items
listed [] = nil
listed (d ∷ ds) =
    item
      (obj (
        field (text "id") (num d.id) (
          field (text "filename") (str d.filename) (
            field (text "sha256") (str d.sha256_hash)
              (field (text "signed_at") (str d.signed_at) end)))))
      (listed ds)

abbrev pub verified_doc : ℤ → Bool → Document → Doc
verified_doc id valid doc = obj (
    field (text "doc_id") (num id) (
      field (text "valid") (boolean valid) (
        field (text "algorithm") (str algorithm) (
          field (text "filename") (str doc.filename)
            (field (text "sha256") (str doc.sha256_hash) end)))))

abbrev pub both : Option Document → Option Bytes → Option (Document × Bytes)
both (some doc) (some pdf_b64) = some (doc, pdf_b64)
both _ _ = none

module _ (O : Openssl) (J : Json) (E : Evp) (signer : Signer E) (R : Redis) (D : Postgres)
    (secret_key : Bytes) where
  abbrev pub respond : Doc → ℕ → Exec (World R D) Response
  respond doc code = lift (json_response J doc code)

  abbrev pub fail : Bytes → ℕ → Exec (World R D) Response
  fail message code = lift (error_response J message code)

  -- The end of `sign`: the row is stored and reported.
  unfoldable pub store_signed : Bytes → Bytes → Bytes → Option Bytes → Exec (World R D) Response
  store_signed user_id_str filename pdf none = fail (text "Signing failed") 500
  store_signed user_id_str filename pdf (some sig_bytes) = do
    let sha256 = sha256_hex O pdf
    let sig_b64 = base64_encode O sig_bytes
    user_id ← lift (stoi user_id_str)
    doc_id ← on_db_caught R D (save D user_id filename (base64_encode O pdf) sig_b64 sha256)
    if ltb_ℤ doc_id (pos 0)
        then fail (text "Failed to persist document") 500
        else respond (signed_doc doc_id filename sha256 sig_b64) 201

  unfoldable pub sign_content : Bytes → Bytes → Bytes → Exec (World R D) Response
  sign_content user_id_str filename content =
      let checked =
        lift (attempt (Dilithium.sign E signer content))
        >>= store_signed user_id_str (name_or_default filename) content in
      if is_empty content
      then fail (text "Empty file") 400
      else if is_pdf content
      then checked
      else fail (text "Unsupported file type: only PDF documents can be signed") 415

  unfoldable pub sign_files : Bytes → List File → Exec (World R D) Response
  sign_files user_id_str [] = fail (text "No file uploaded") 400
  sign_files user_id_str (file ∷ files) = sign_content user_id_str file.file_name file.content

  abbrev pub sign_form : Bytes → Option Form → Exec (World R D) Response
  sign_form user_id_str none = fail (text "Invalid multipart request") 400
  sign_form user_id_str (some form) = sign_files user_id_str form.files

  -- `DocumentController::sign`
  unfoldable pub sign : ℤ → Request → Exec (World R D) Response
  sign now req =
      with_user O J R D secret_key now req (λ user_id_str. sign_form user_id_str req.form)

  unfoldable pub list_for : Bytes → Exec (World R D) Response
  list_for user_id_str = do
    user_id ← lift (stoi user_id_str)
    docs ← on_db R D (find_by_user_id D user_id)
    respond (obj (field (text "documents") (arr (listed docs)) end)) 200

  -- `DocumentController::list`
  unfoldable pub list : ℤ → Request → Exec (World R D) Response
  list now req = with_user O J R D secret_key now req list_for

  abbrev pub if_owned : Exec (World R D) Response → Bool → Exec (World R D) Response
  if_owned handler true = handler
  if_owned handler false = fail (text "Not found") 404

  -- The owner check that `download`, `verify` and `remove` begin with.
  unfoldable pub with_owned : Exec (World R D) Response → ℤ → Bytes → Exec (World R D) Response
  with_owned handler id user_id_str = do
    user_id ← lift (stoi user_id_str)
    ok ← on_db R D (owned_by D id user_id)
    if_owned handler ok

  abbrev pub found_or_404 :
      (Document → Bytes → Exec (World R D) Response)
      → Option (Document × Bytes)
      → Exec (World R D) Response
  found_or_404 handler none = fail (text "Not found") 404
  found_or_404 handler (some (doc, pdf_b64)) = handler doc pdf_b64

  -- The two reads of `download` and `verify`.
  unfoldable pub with_document :
      (Document → Bytes → Exec (World R D) Response) → ℤ → Exec (World R D) Response
  with_document handler id = do
    doc ← on_db R D (find_by_id D id)
    pdf_b64 ← on_db R D (get_pdf_data D id)
    found_or_404 handler (both doc pdf_b64)

  abbrev pub send_pdf : Document → Bytes → Exec (World R D) Response
  send_pdf doc pdf_b64 = pure (pdf_response doc.filename (base64_decode O pdf_b64))

  -- `DocumentController::download`
  unfoldable pub download : ℤ → Request → ℤ → Exec (World R D) Response
  download now req id =
      with_user O J R D secret_key now req (with_owned (with_document send_pdf id) id)

  abbrev pub report : ℤ → Document → Option Bool → Exec (World R D) Response
  report id doc none = fail (text "Verification error") 500
  report id doc (some valid) = respond (verified_doc id valid doc) 200

  abbrev pub verify_pdf : ℤ → Document → Bytes → Exec (World R D) Response
  verify_pdf id doc pdf_b64 =
      lift (
        attempt
          (Dilithium.verify E signer (base64_decode O pdf_b64) (base64_decode O doc.signature_b64)))
      >>= report id doc

  -- `DocumentController::verify`
  unfoldable pub verify : ℤ → Request → ℤ → Exec (World R D) Response
  verify now req id =
      with_user O J R D secret_key now req (with_owned (with_document (verify_pdf id) id) id)

  abbrev pub deleted : ℤ → Bool → Exec (World R D) Response
  deleted id true =
      respond (obj (field (text "deleted") (boolean true) (field (text "doc_id") (num id) end))) 200
  deleted id false = fail (text "Failed to delete document") 500

  unfoldable pub delete_owned : ℤ → Exec (World R D) Response
  delete_owned id = on_db_caught R D (delete_by_id D id) >>= deleted id

  -- `DocumentController::remove`
  unfoldable pub remove : ℤ → Request → ℤ → Exec (World R D) Response
  remove now req id = with_user O J R D secret_key now req (with_owned (delete_owned id) id)

  -- `DocumentController::publicKey`
  unfoldable pub public_key : Request → Exec (World R D) Response
  public_key req = do
    pem ← lift (Dilithium.export_public_key_pem E signer)
    if is_empty pem
        then fail (text "Public key unavailable") 500
        else respond
            (obj (
              field (text "algorithm") (str algorithm)
                (field (text "public_key_pem") (str pem) end)))
            200
