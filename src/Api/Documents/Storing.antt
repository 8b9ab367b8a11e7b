-- ===== src/Api/Documents/Storing.antt =====
-- `sign` on an upload that it accepts: the row that is stored, and the answer.
use pqc_api.Prelude.{
  ◌≡◌, true, false, some, List, ◌∷◌, if◌then◌else◌, Bytes, text, All, IsByte, is_empty,
}
use pqc_api.Prelude.Int.{ℤ, pos, ltb_ℤ, IsInt32}
use pqc_api.Std.Outcome.{Outcome, returns}
use pqc_api.Std.Decimal.{to_string}
use pqc_api.External.Openssl.{Openssl, Base64Laws, DigestLaws}
use pqc_api.External.Evp.{Evp, SignatureLaws}
use pqc_api.External.Json.{Json}
use pqc_api.External.Redis.{Redis, RedisLaws}
use pqc_api.External.Postgres.{Postgres}
use pqc_api.Persistence.Documents.{save}
use pqc_api.Persistence.Documents.Table.{DocumentTable}
use pqc_api.Crypto.Signer as Dilithium
use pqc_api.Crypto.Signer.{Signer}
use pqc_api.Crypto.Signer.Keys as Keys
use pqc_api.Crypto.Signer.Keys.{IsPair}
use pqc_api.Auth.World.{World}
use pqc_api.Api.Http.{File, Form, Request, Response, extract_user_id}
use pqc_api.Api.Documents.{
  sha256_hex, base64_encode, is_pdf, name_or_default, sign, signed_doc, fail, respond,
}

module _ (O : Openssl) (J : Json) (E : Evp) (signer : Signer E) (R : Redis) (D : Postgres)
    (secret_key : Bytes) (B : Base64Laws O) (G : DigestLaws O) (SL : SignatureLaws E)
    (L : RedisLaws R) (T : DocumentTable D) (now : ℤ) (req : Request) (w : World R D)
    (up : T.is_up w.db ≡ true) (user_id : ℤ) (range : IsInt32 user_id)
    (user : (extract_user_id O J R secret_key now req w.redis).0 ≡ some (to_string user_id)) where
  abbrev stored_answer : Bytes → Bytes → Bytes → ℤ × D.State → Outcome Response × World R D
  stored_answer filename content signature (doc_id, s) =
      (if ltb_ℤ doc_id (pos 0)
          then fail O J E signer R D secret_key (text "Failed to persist document") 500
          else respond O J E signer R D secret_key
              (signed_doc doc_id filename (sha256_hex O content) (base64_encode O signature)) 201)
        (record w { db = s })

  module _ (form : Form) (file : File) (files : List File) (parsed : req.form ≡ some form)
      (first : form.files ≡ file ∷ files) (nonempty : is_empty file.content ≡ false)
      (pdf : is_pdf file.content ≡ true) (bytes : All IsByte file.content) (signature : Bytes)
      (pair : IsPair E signer) (signed : Dilithium.sign E signer file.content ≡ returns signature)
      (accepted : T.accepts (name_or_default file.file_name) ≡ true) where
    abbrev saved : ℤ × D.State
    saved =
        save D user_id (name_or_default file.file_name) (base64_encode O file.content)
          (base64_encode O signature) (sha256_hex O file.content) w.db
