-- ===== src/Api/Documents/Refused.antt =====
-- Which uploads `sign` of src/api/Controllers.cpp refuses.
use pqc_api.Prelude.{
  ℕ, ◌≡◌, ◌≢◌, refl, ◌∙◌, inl, inr, Option, none, some, List, [], ◌∷◌, Bytes, text, Bool-cases,
}
use pqc_api.Prelude.Int.{ℤ}
use pqc_api.External.Openssl.{Openssl}
use pqc_api.External.Evp.{Evp}
use pqc_api.External.Json.{Json}
use pqc_api.External.Redis.{Redis, RedisLaws}
use pqc_api.External.Postgres.{Postgres}
use pqc_api.Crypto.Signer.{Signer}
use pqc_api.Auth.World.{World}
use pqc_api.Std.Outcome.{Outcome}
use pqc_api.Api.Http.{File, Form, Request, Response, extract_user_id}
use pqc_api.Api.Http.Guard.{with_user_accepted}
use pqc_api.Api.Documents.{is_pdf, sign, sign_form, sign_files, sign_content}
use pqc_api.Api.Documents.Format.{IsPdf, is_pdf_iff}
use pqc_api.Api.Documents.Ownership.{refusal}

-- The first file of a multipart form is a PDF.
pub record HasPdf (parsed : Option Form) : Type 0 where
  pub form : Form
  pub file : File
  pub files : List File
  pub multipart : parsed ≡ some form
  pub first : form.files ≡ file ∷ files
  pub pdf : IsPdf file.content

-- What is wrong with an upload, and the message and the code that say so.
pub data Unfit : Option Form → Bytes → ℕ → Type 0 where
  not_multipart : Unfit none (text "Invalid multipart request") 400
  no_file : (form : Form) → form.files ≡ [] → Unfit (some form) (text "No file uploaded") 400
  empty_file :
      (form : Form) (file : File) (files : List File)
      → form.files ≡ file ∷ files
      → file.content ≡ []
      → Unfit (some form) (text "Empty file") 400
  no_pdf :
      (form : Form) (file : File) (files : List File)
      → form.files ≡ file ∷ files
      → file.content ≢ []
      → ¬ IsPdf file.content
      → Unfit (some form) (text "Unsupported file type: only PDF documents can be signed") 415

module _ (O : Openssl) (J : Json) (E : Evp) (signer : Signer E) (R : Redis) (D : Postgres)
    (secret_key : Bytes) (w : World R D) (user_id : Bytes) where
  abbrev Refused : Option Form → Outcome Response × World R D → Type 0
  Refused parsed answer =
      (message : Bytes) × (code : ℕ) × Unfit parsed message code
      × (answer ≡ refusal R D J message code w)

  content-Refused :
      (form : Form) (file : File) (files : List File) (content : Bytes)
      → form.files ≡ file ∷ files
      → file.content ≡ content
      → ¬ IsPdf content
      → Refused
          (some form)
          (sign_content O J E signer R D secret_key user_id file.file_name content w)
  unfolding sign_content
  content-Refused form file files [] first e other =
      (_, _, empty_file form file files first e, refl)
  content-Refused form file files (c ∷ s) first e other = elim (Bool-cases (is_pdf (c ∷ s))) [
    | inl pdf ↦ absurd (other ((is_pdf_iff (c ∷ s)).0 pdf))
    | inr differs ↦
        (_, _, no_pdf form file files first (rw e (λ z. cc)) (rw e other), rw differs refl)
  ]

  files-Refused :
      (form : Form) (files : List File)
      → form.files ≡ files
      → ¬ HasPdf (some form)
      → Refused (some form) (sign_files O J E signer R D secret_key user_id files w)
  unfolding sign_files
  files-Refused form [] first other = (_, _, no_file form first, refl)
  files-Refused form (file ∷ files) first other =
      content-Refused form file files file.content first refl (λ pdf. other (record {
        form = form;
        file = file;
        files = files;
        multipart = refl;
        first = first;
        pdf = pdf;
      }))

  form-Refused :
      (parsed : Option Form)
      → ¬ HasPdf parsed
      → Refused parsed (sign_form O J E signer R D secret_key user_id parsed w)
  form-Refused none other = (_, _, not_multipart, refl)
  form-Refused (some form) other = files-Refused form form.files refl other

  -- For a user whose token is accepted: an upload whose first file is not a PDF, with `%PDF-` in its
  -- first 1024 bytes and `%%EOF` in its last 1024, is refused and changes nothing. The answer is 400 if the
  -- request is no multipart form, has no file, or an empty one, and 415 otherwise, with a message that
  -- says which.
  pub sign_refused :
      RedisLaws R
      → (now : ℤ) (req : Request)
      → (extract_user_id O J R secret_key now req w.redis).0 ≡ some user_id
      → ¬ HasPdf req.form
      → (message : Bytes) × (code : ℕ) × Unfit req.form message code
        × (sign O J E signer R D secret_key now req w ≡ refusal R D J message code w)
  unfolding sign
  sign_refused L now req user other =
      let (message, code, unfit, answered) = form-Refused req.form other in
      (
        message,
        code,
        unfit,
        with_user_accepted O J R secret_key L D now req w _ user_id user ∙ answered,
      )
