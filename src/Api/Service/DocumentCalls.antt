-- ===== src/Api/Service/DocumentCalls.antt =====
-- What each handler of `DocumentController` keeps; `remove` is given what its deletion keeps.
use pqc_api.Prelude.{Bool, true, false, none, some, Option, List, [], ◌∷◌, is_empty, Bytes, text}
use pqc_api.Prelude.Int.{ℤ, pos, ltb_ℤ}
use pqc_api.Std.Outcome.{Outcome, returns, throws, invalid_argument, undefined}
use pqc_api.Std.Exec.{Exec, lift, ◌>>=◌}
use pqc_api.Std.Decimal.{stoi}
use pqc_api.External.Openssl.{Openssl}
use pqc_api.External.Evp.{Evp}
use pqc_api.External.Json.{Json, str, obj, field, end}
use pqc_api.External.Redis.{Redis}
use pqc_api.External.Postgres.{Postgres}
use pqc_api.Persistence.Documents as Store
use pqc_api.Persistence.Documents.{Document}
use pqc_api.Crypto.Signer as Dilithium
use pqc_api.Crypto.Signer.{Signer}
use pqc_api.Auth.World.{World, on_db, on_db_caught}
use pqc_api.Api.Http.{File, Form, Request, Response, attempt, error_response, json_response}
use pqc_api.Api.Documents as Documents
use pqc_api.Api.Documents.{base64_encode, base64_decode, sha256_hex, is_pdf, name_or_default}
use pqc_api.Api.Documents.Submitted as Submitted
use pqc_api.Api.Service.Kept.{Kept}
use pqc_api.Api.Service.Calls as Calls

module _ (O : Openssl) (J : Json) (E : Evp) (signer : Signer E) (R : Redis) (D : Postgres)
    (secret_key : Bytes) (K : Kept O J R D secret_key) where
  open K use {
    Keeps, lifts, binds, ifs, document_by_id, documents_by_user, pdf_by_id, ownership,
    document_saved,
  }

  lift_binds :
      {A B : Type 0} (r : Outcome A) (f : A → Exec (World R D) B)
      → ((a : A) → Keeps (f a))
      → Keeps (lift r >>= f)
  lift_binds = Calls.lift_binds O J R D secret_key K

  store_signed-Keeps :
      (user_id_str filename pdf : Bytes) (signature : Option Bytes)
      → Keeps
          (Documents.store_signed O J E signer R D secret_key user_id_str filename pdf signature)
  unfolding Documents.store_signed
  store_signed-Keeps user_id_str filename pdf none = lifts _
  store_signed-Keeps user_id_str filename pdf (some sig_bytes) =
      lift_binds (stoi user_id_str) _ (λ user_id.
        binds
          (on_db_caught R D (
            Store.save D user_id filename (base64_encode O pdf) (base64_encode O sig_bytes)
              (sha256_hex O pdf)))
          _
          (document_saved user_id filename (base64_encode O pdf) (base64_encode O sig_bytes)
            (sha256_hex O pdf))
          (λ doc_id.
            ifs (ltb_ℤ doc_id (pos 0)) _ _
              (lifts (error_response J (text "Failed to persist document") 500))
              (lifts (
                json_response J
                  (Documents.signed_doc doc_id filename (sha256_hex O pdf)
                    (base64_encode O sig_bytes))
                  201))))

  sign_form-Keeps :
      (user_id_str : Bytes) (form : Option Form)
      → Keeps (Documents.sign_form O J E signer R D secret_key user_id_str form)
  unfolding Documents.sign_files Documents.sign_content
  sign_form-Keeps user_id_str none = lifts _
  sign_form-Keeps user_id_str (some form) = files form.files
    where
      files :
          (fs : List File) → Keeps (Documents.sign_files O J E signer R D secret_key user_id_str fs)
      files [] = lifts _
      files (file ∷ fs) = ifs (is_empty file.content) _ _ (lifts _) (
          ifs (is_pdf file.content) _ _
            (lift_binds (attempt (Dilithium.sign E signer file.content)) _
              (store_signed-Keeps user_id_str (name_or_default file.file_name) file.content))
            (lifts _))

  list_for-Keeps :
      (user_id : Bytes) → Keeps (Documents.list_for O J E signer R D secret_key user_id)
  unfolding Documents.list_for
  list_for-Keeps user_id = lift_binds (stoi user_id) _ (λ id.
      binds (on_db R D (Store.find_by_user_id D id)) _ (documents_by_user id) (λ docs. lifts _))

  found_or_404-Keeps :
      (handler : Document → Bytes → Exec (World R D) Response) (found : Option (Document × Bytes))
      → ((doc : Document) (pdf : Bytes) → Keeps (handler doc pdf))
      → Keeps (Documents.found_or_404 O J E signer R D secret_key handler found)
  found_or_404-Keeps handler none h = lifts _
  found_or_404-Keeps handler (some (doc, pdf)) h = h doc pdf

  with_document-Keeps :
      (handler : Document → Bytes → Exec (World R D) Response) (id : ℤ)
      → ((doc : Document) (pdf : Bytes) → Keeps (handler doc pdf))
      → Keeps (Documents.with_document O J E signer R D secret_key handler id)
  unfolding Documents.with_document
  with_document-Keeps handler id h =
      binds (on_db R D (Store.find_by_id D id)) _ (document_by_id id) (λ doc.
        binds (on_db R D (Store.get_pdf_data D id)) _ (pdf_by_id id)
          (λ pdf. found_or_404-Keeps handler (Documents.both doc pdf) h))

  if_owned-Keeps :
      (handler : Exec (World R D) Response) (ok : Bool)
      → Keeps handler
      → Keeps (Documents.if_owned O J E signer R D secret_key handler ok)
  if_owned-Keeps handler true h = h
  if_owned-Keeps handler false h = lifts _

  with_owned-Keeps :
      (handler : Exec (World R D) Response) (id : ℤ) (user_id : Bytes)
      → Keeps handler
      → Keeps (Documents.with_owned O J E signer R D secret_key handler id user_id)
  unfolding Documents.with_owned
  with_owned-Keeps handler id user_id h = lift_binds (stoi user_id) _ (λ user.
      binds (on_db R D (Store.owned_by D id user)) _ (ownership id user)
        (λ ok. if_owned-Keeps handler ok h))

  pub sign-Keeps :
      (now : ℤ) (req : Request) → Keeps (Documents.sign O J E signer R D secret_key now req)
  unfolding Documents.sign
  sign-Keeps now req =
      Calls.with_user-Keeps O J R D secret_key K now req _
        (λ user_id. sign_form-Keeps user_id req.form)

  pub list-Keeps :
      (now : ℤ) (req : Request) → Keeps (Documents.list O J E signer R D secret_key now req)
  unfolding Documents.list
  list-Keeps now req = Calls.with_user-Keeps O J R D secret_key K now req _ list_for-Keeps

  pub download-Keeps :
      (now : ℤ) (req : Request) (id : ℤ)
      → Keeps (Documents.download O J E signer R D secret_key now req id)
  unfolding Documents.download
  download-Keeps now req id =
      Calls.with_user-Keeps O J R D secret_key K now req _
        (λ user_id. with_owned-Keeps _ id user_id (with_document-Keeps _ id (λ doc pdf. lifts _)))

  pub verify-Keeps :
      (now : ℤ) (req : Request) (id : ℤ)
      → Keeps (Documents.verify O J E signer R D secret_key now req id)
  unfolding Documents.verify
  verify-Keeps now req id = Calls.with_user-Keeps O J R D secret_key K now req _ (λ user_id.
      with_owned-Keeps _ id user_id
        (with_document-Keeps _ id (λ doc pdf. lift_binds _ _ (report doc))))
    where
      report :
          (doc : Document) (valid : Option Bool)
          → Keeps (Documents.report O J E signer R D secret_key id doc valid)
      report doc none = lifts _
      report doc (some valid) = lifts _

  pub remove-Keeps :
      (now : ℤ) (req : Request) (id : ℤ)
      → Keeps (Documents.delete_owned O J E signer R D secret_key id)
      → Keeps (Documents.remove O J E signer R D secret_key now req id)
  unfolding Documents.remove
  remove-Keeps now req id removed =
      Calls.with_user-Keeps O J R D secret_key K now req _
        (λ user_id. with_owned-Keeps _ id user_id removed)

  pub public_key-Keeps :
      (req : Request) → Keeps (Documents.public_key O J E signer R D secret_key req)
  unfolding Documents.public_key
  public_key-Keeps req = lift_binds (Dilithium.export_public_key_pem E signer) _ (λ pem.
      ifs (is_empty pem) _ _ (lifts (error_response J (text "Public key unavailable") 500)) (
        lifts (
          json_response J
            (obj (
              field (text "algorithm") (str Documents.algorithm)
                (field (text "public_key_pem") (str pem) end)))
            200)))

  external_answer-Keeps :
      (pem : Bytes) (r : Outcome Bool) → Keeps (Submitted.external_answer O J E signer R D pem r)
  external_answer-Keeps pem (returns valid) =
      lift_binds (Dilithium.is_own_public_key E signer pem) _
        (λ own. lifts (json_response J (Submitted.submitted_doc valid own) 200))
  external_answer-Keeps pem (throws (invalid_argument what)) = lifts _
  external_answer-Keeps pem (throws undefined) = lifts _
  external_answer-Keeps pem (throws e) = lifts _

  pub verify_external-Keeps :
      (req : Request) → Keeps (Submitted.verify_external O J E signer R D req)
  unfolding Submitted.verify_external Submitted.verify_parts
  verify_external-Keeps req = form req.form
    where
      parts :
          (pdf : Bytes) (signature key : Option Bytes)
          → Keeps (Submitted.verify_fields O J E signer R D pdf signature key)
      parts pdf none key = lifts _
      parts pdf (some signature) none = lifts _
      parts pdf (some signature) (some key) =
          ifs (is_empty (base64_decode O signature)) _ _ (lifts _) (
            external_answer-Keeps key
              (Dilithium.verify_with_pem E pdf (base64_decode O signature) key))

      form : (f : Option Form) → Keeps (Submitted.verify_form O J E signer R D f)
      form none = lifts _
      form (some f) = ifs (is_empty (Submitted.find_pdf f.files)) _ _ (lifts _) (
          parts (Submitted.find_pdf f.files) (f.parameters (text "signature"))
            (f.parameters (text "public_key")))
