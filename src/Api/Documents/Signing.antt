-- ===== src/Api/Documents/Signing.antt =====
-- `sign`: what it stores, what it refuses, and what `download` and `verify` make of a stored row.
use pqc_api.Prelude.{
  ℕ, ◌<◌, ◌≡◌, ◌≢◌, refl, ◌∙◌, true, Option, none, some, List, [], ◌∷◌, ◌++◌, arith, Bytes, All,
  All-mono, All-append, All-replicate, IsByte, replicate,
}
use pqc_api.Prelude.Int.{ℤ, IsInt32, eq_ℤ_iff}
use pqc_api.Std.Outcome.{returns}
use pqc_api.Std.Exec.{Exec}
use pqc_api.Std.Decimal.{to_string}
use pqc_api.External.Openssl.{Openssl, Base64Laws, IsBase64}
use pqc_api.External.Evp.{Evp, SignatureLaws}
use pqc_api.External.Json.{Json}
use pqc_api.External.Redis.{Redis, RedisLaws}
use pqc_api.External.Postgres.{Postgres}
use pqc_api.Persistence.Documents.{Document}
use pqc_api.Persistence.Documents.Table.{
  Stored, DocumentTable, with_id, owned, find_by_id_lem, get_pdf_data_lem,
}
use pqc_api.Crypto.Signer as Dilithium
use pqc_api.Crypto.Signer.{Signer}
use pqc_api.Crypto.Signer.Keys as Keys
use pqc_api.Crypto.Signer.Keys.{IsPair}
use pqc_api.Auth.World.{World}
use pqc_api.Api.Http.{File, Form, Request, Response, json_response, extract_user_id, with_user}
use pqc_api.Api.Http.Guard.{with_user_accepted}
use pqc_api.Api.Documents.{
  sha256_hex, base64_encode, base64_decode, sign, sign_content, sign_files, download, verify,
  with_owned, with_document, verified_doc, pdf_response, send_pdf, verify_pdf,
}
use pqc_api.Api.Documents.Ownership.{with_owned_lem}

pub with_id-append :
    (id : ℤ) (ds : List Stored) (d : Stored)
    → with_id id ds ≡ none
    → d.document.id ≡ id
    → with_id id (ds ++ d ∷ []) ≡ some d
with_id-append id [] d h e = rw (e, (eq_ℤ_iff id id).1 refl) refl
with_id-append id (x ∷ ds) d h e = ground (arith, with_id-append id ds d)

-- An ASCII character other than NUL.
abbrev pub IsPlain : ℕ → Type 0
IsPlain c = (c < 128) × (c ≢ 0)

IsBase64-IsPlain : (c : ℕ) → IsBase64 c → IsPlain c
IsBase64-IsPlain c h = ground arith

module _ (O : Openssl) (B : Base64Laws O) where
  pub base64_encode-IsPlain : (s : Bytes) → All IsByte s → All IsPlain (base64_encode O s)
  unfolding base64_encode
  base64_encode-IsPlain s h =
      let t = B.encoded s h in
      rw t.form (
        All-append IsPlain t.body (replicate t.pad b'=') (All-mono IsBase64-IsPlain _ t.alphabet)
          (All-replicate IsPlain t.pad b'=' (omega arith, omega arith)))

  pub base64_decode-encode :
      (s : Bytes) → All IsByte s → s ≢ [] → base64_decode O (base64_encode O s) ≡ s
  unfolding base64_encode base64_decode
  base64_decode-encode s h k = rw (B.decode-encode s h k) refl

owned_of_owner :
    {found : Option Stored} {user_id : ℤ} (d : Stored)
    → found ≡ some d
    → d.document.user_id ≡ user_id
    → owned found user_id ≡ true
owned_of_owner {user_id = user_id} d e owner = rw (e, owner) ((eq_ℤ_iff user_id user_id).1 refl)

-- The table holds the row that `sign` makes of an upload.
pub record IsStored (O : Openssl) (user_id : ℤ) (filename content signature : Bytes) (doc_id : ℤ)
    (ds : List Stored) : Type 0 where
  pub row : Stored
  pub found : with_id doc_id ds ≡ some row
  pub owner : row.document.user_id ≡ user_id
  pub name : row.document.filename ≡ filename
  pub digest : row.document.sha256_hash ≡ sha256_hex O content
  pub signed : row.document.signature_b64 ≡ base64_encode O signature
  pub pdf : row.pdf_data ≡ base64_encode O content

module _ (O : Openssl) (J : Json) (E : Evp) (signer : Signer E) (R : Redis) (D : Postgres)
    (secret_key : Bytes) (L : RedisLaws R) (T : DocumentTable D) (now : ℤ) (req : Request)
    (w : World R D) (up : T.is_up w.db ≡ true) (user_id : ℤ) (range : IsInt32 user_id)
    (user : (extract_user_id O J R secret_key now req w.redis).0 ≡ some (to_string user_id)) where
  pub sign_lem :
      (form : Form) (file : File) (files : List File)
      → req.form ≡ some form
      → form.files ≡ file ∷ files
      → sign O J E signer R D secret_key now req w
        ≡ sign_content O J E signer R D secret_key (to_string user_id) file.file_name file.content w
  unfolding sign sign_files
  sign_lem form file files parsed first =
      with_user_accepted O J R secret_key L D now req w _ (to_string user_id) user
      ∙ rw (parsed, first) refl

  with_document_lem :
      (handler : Document → Bytes → Exec (World R D) Response) (id : ℤ) (d : Stored)
      → with_id id (T.documents w.db) ≡ some d
      → with_document O J E signer R D secret_key handler id w ≡ handler d.document d.pdf_data w
  unfolding with_document
  with_document_lem handler id d found =
      rw (find_by_id_lem D T w.db up id, get_pdf_data_lem D T w.db up id, found) refl

  -- What a handler behind the owner check gets of a stored document.
  with_owned_document :
      (handler : Document → Bytes → Exec (World R D) Response) (id : ℤ) (d : Stored)
      → with_id id (T.documents w.db) ≡ some d
      → d.document.user_id ≡ user_id
      → with_user O J R D secret_key now req
          (with_owned O J E signer R D secret_key
            (with_document O J E signer R D secret_key handler id)
            id)
          w
        ≡ handler d.document d.pdf_data w
  with_owned_document handler id d found owner =
      with_owned_lem O J E signer R D secret_key L T now req w up user_id range user _ id
      ∙ rw (owned_of_owner d found owner) (with_document_lem handler id d found)

  module _ (filename content signature : Bytes) (doc_id : ℤ) (B : Base64Laws O)
      (bytes : All IsByte content) (nonempty : content ≢ [])
      (st : IsStored O user_id filename content signature doc_id (T.documents w.db)) where
    -- While the database can be reached, for a user whose token is accepted and whose id is a
    -- 32-bit integer: if the table holds the row that belongs to an upload of that user, of bytes
    -- that are not empty, then `download` of its id answers with the uploaded bytes under the
    -- uploaded name and changes nothing.
    pub download_stored :
        download O J E signer R D secret_key now req doc_id w
        ≡ (returns (pdf_response filename content), w)
    unfolding download
    download_stored =
        with_owned_document (send_pdf O J E signer R D secret_key) doc_id st.row st.found st.owner
        ∙ rw (st.name, st.pdf, base64_decode-encode O B content bytes nonempty) refl

    -- While the database can be reached, for a user whose token is accepted and whose id is a
    -- 32-bit integer: if the table holds the row that belongs to an upload of that user, of bytes
    -- that are not empty, and the signer holds a pair of keys and signs these bytes with the stored
    -- signature, then `verify` of its id reports the document as valid and changes nothing.
    pub verify_stored :
        SignatureLaws E
        → IsPair E signer
        → Dilithium.sign E signer content ≡ returns signature
        → verify O J E signer R D secret_key now req doc_id w
          ≡ (json_response J (verified_doc doc_id true st.row.document) 200, w)
    unfolding verify
    verify_stored SL pair signed =
        let (sig_bytes, sig_nonempty) = Keys.sign_bytes E SL signer content signature pair signed in
        with_owned_document (verify_pdf O J E signer R D secret_key doc_id) doc_id st.row st.found
          st.owner
        ∙ rw
            (
              st.signed,
              st.pdf,
              base64_decode-encode O B content bytes nonempty,
              base64_decode-encode O B signature sig_bytes sig_nonempty,
              Keys.verify-sign E SL signer content signature pair signed,
            )
            refl
