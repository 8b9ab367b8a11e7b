-- ===== src/Api/Service/Lifetime.antt =====
-- What becomes of a signed document while the service goes on answering calls.
use pqc_api.Prelude.{◌≡◌, ◌≢◌, true, some, All, IsByte, Bytes, []}
use pqc_api.Prelude.Int.{ℤ, IsInt32}
use pqc_api.Std.Outcome.{returns}
use pqc_api.Std.Decimal.{to_string}
use pqc_api.External.Openssl.{Openssl, Base64Laws}
use pqc_api.External.Evp.{Evp, SignatureLaws}
use pqc_api.External.Json.{Json}
use pqc_api.External.Redis.{Redis, RedisLaws}
use pqc_api.External.Postgres.{Postgres}
use pqc_api.External.Sodium.{Sodium}
use pqc_api.External.X509.{X509}
use pqc_api.Persistence.Users.Table.{UserTable}
use pqc_api.Persistence.Documents.Table.{Stored, DocumentTable, with_id}
use pqc_api.Persistence.Shared.{SharedTables}
use pqc_api.Crypto.Signer as Dilithium
use pqc_api.Crypto.Signer.{Signer}
use pqc_api.Crypto.Signer.Keys.{IsPair}
use pqc_api.Pki.Certificate.{Certificate}
use pqc_api.Auth.World.{World}
use pqc_api.Api.Http.{Request, json_response, extract_user_id}
use pqc_api.Api.Documents.{download, verify, pdf_response, verified_doc}
use pqc_api.Api.Documents.Signing.{IsStored, download_stored, verify_stored}
use pqc_api.Api.Service.Calls as Calls
use pqc_api.Api.Service.Rules.{tables-Kept}
use pqc_api.Api.Service.Safety.{
  Served, start, call, finish_registration, pass, RemovesOwn, documents_kept,
}

module _ (O : Openssl) (J : Json) (E : Evp) (X : X509) (S : Sodium) (R : Redis) (D : Postgres)
    (secret_key : Bytes) (signer : Signer E) (server_cert : Certificate X) (L : RedisLaws R)
    (T : UserTable D) (U : DocumentTable D) (Sh : SharedTables D T U) where
  abbrev Run : World R D → World R D → Type 0
  Run = Served O J E X S R D secret_key signer server_cert L T U Sh

  -- No call of the run is a `remove` of the document by its owner.
  abbrev pub NotRemoved : {w v : World R D} → Run w v → ℤ → Stored → Type 0
  NotRemoved start id d = Unit
  NotRemoved (call h c {v} r) id d =
      (¬ RemovesOwn O J E X S R D secret_key signer server_cert L T U Sh h c v id d)
      × NotRemoved r id d
  NotRemoved (finish_registration salt username password r) id d = NotRemoved r id d
  NotRemoved (pass seconds r) id d = NotRemoved r id d

  Run-keeps :
      {w v : World R D} (r : Run w v) (id : ℤ) (d : Stored)
      → NotRemoved r id d
      → with_id id (U.documents w.db) ≡ some d
      → with_id id (U.documents v.db) ≡ some d
  Run-keeps start id d kept found = found
  Run-keeps (call h c {v} r) id d (other, kept) found =
      documents_kept O J E X S R D secret_key signer server_cert L T U Sh h c v id d other
        (Run-keeps r id d kept found)
  Run-keeps (finish_registration salt username password {v} r) id d kept found =
      ((Calls.create_user-Keeps O J R D secret_key
            (tables-Kept D T U Sh (λ id d. ⊥) O J R secret_key) S salt username password).at
          v).kept
        id d (λ e. e) (Run-keeps r id d kept found)
  Run-keeps (pass seconds r) id d kept found = Run-keeps r id d kept found

  module _ {w v : World R D} (r : Run w v) (up : U.is_up v.db ≡ true) (now : ℤ) (req : Request)
      (user_id : ℤ) (range : IsInt32 user_id)
      (user : (extract_user_id O J R secret_key now req v.redis).0 ≡ some (to_string user_id))
      (filename content signature : Bytes) (doc_id : ℤ) (B : Base64Laws O)
      (bytes : All IsByte content) (nonempty : content ≢ [])
      (st : IsStored O user_id filename content signature doc_id (U.documents w.db))
      (kept : NotRemoved r doc_id st.row) where
    abbrev stored_later : IsStored O user_id filename content signature doc_id (U.documents v.db)
    stored_later = record {
      row = st.row;
      found = Run-keeps r doc_id st.row kept st.found;
      owner = st.owner;
      name = st.name;
      digest = st.digest;
      signed = st.signed;
      pdf = st.pdf;
    }

    -- Between the upload and this request the service answered any calls, of anybody and in any
    -- order, none of which is a `remove` of the document with an accepted token of its owner. If
    -- the table held the row that belongs to the upload, of bytes that are not empty, and the
    -- signer holds a pair of keys and signs these bytes with the stored signature, then, while the
    -- database can be reached and for the owner's accepted token and an id of 32 bits: `download`
    -- answers with the uploaded bytes under the uploaded name, `verify` reports the document as
    -- valid, and neither changes anything. Base64, signatures and the two tables are taken to
    -- behave as documented.
    pub served_verifies :
        SignatureLaws E
        → IsPair E signer
        → Dilithium.sign E signer content ≡ returns signature
        → (download O J E signer R D secret_key now req doc_id v
            ≡ (returns (pdf_response filename content), v))
          × (verify O J E signer R D secret_key now req doc_id v
              ≡ (json_response J (verified_doc doc_id true st.row.document) 200, v))
    served_verifies SL pair signed = (
      download_stored O J E signer R D secret_key L U now req v up user_id range user filename
          content signature doc_id B bytes nonempty stored_later,
      verify_stored O J E signer R D secret_key L U now req v up user_id range user filename content
          signature doc_id B bytes nonempty stored_later SL pair signed,
    )
