-- ===== src/Persistence/Documents.antt =====
-- src/persistence/DocumentRepository.cpp

pub mod Table
use pqc_api.Prelude.{Bool, true, false, Option, none, some, List, [], ◌∷◌, Bytes, text}
use pqc_api.Prelude.Int.{ℤ, negsuc}
use pqc_api.Std.Outcome.{Outcome, returns, throws, sql_error, or_throw, ◌>>=◌}
use pqc_api.Std.Exec.{Exec, lift, ◌>>=◌ as ◌>>>=◌}
use pqc_api.Std.Decimal.{to_string}
use pqc_api.External.Postgres.{Postgres}
use pqc_api.Persistence.PostgreSqlClient.{query}

pub record Document : Type 0 where
  pub id : ℤ
  pub user_id : ℤ
  pub filename : Bytes
  pub sha256_hash : Bytes
  pub signature_b64 : Bytes
  pub signed_at : Bytes

abbrev pub insert_document_sql : Bytes
insert_document_sql =
    text
      "INSERT INTO documents (user_id, filename, pdf_data, signature, sha256_hash) VALUES ($1, $2, $3, $4, $5) RETURNING id"

abbrev pub document_by_id_sql : Bytes
document_by_id_sql =
    text
      "SELECT id, user_id, filename, sha256_hash, signature, signed_at FROM documents WHERE id = $1"

abbrev pub documents_by_user_sql : Bytes
documents_by_user_sql =
    text
      "SELECT id, user_id, filename, sha256_hash, signature, signed_at FROM documents WHERE user_id = $1 ORDER BY signed_at DESC"

abbrev pub pdf_data_sql : Bytes
pdf_data_sql = text "SELECT pdf_data FROM documents WHERE id = $1"

abbrev pub owned_by_sql : Bytes
owned_by_sql = text "SELECT 1 FROM documents WHERE id = $1 AND user_id = $2"

abbrev pub delete_document_sql : Bytes
delete_document_sql = text "DELETE FROM documents WHERE id = $1 RETURNING id"

-- `!result.empty()`
abbrev pub has_rows {ℓ} : {A : Type ℓ} → List A → Bool
has_rows [] = false
has_rows (row ∷ rows) = true

-- The rows of a result; an exception is caught and reported as no rows.
abbrev pub rows_or_none {ℓ} : {A : Type ℓ} → Outcome (List A) → List A
rows_or_none (returns rows) = rows
rows_or_none (throws e) = []

module _ (D : Postgres) where
  abbrev id_or_failed : Option ℤ → ℤ
  id_or_failed none = negsuc 0
  id_or_failed (some id) = id

  -- The id of the first row, and -1 if there is no row or its id is no integer.
  abbrev pub saved_id : List D.Row → ℤ
  saved_id [] = negsuc 0
  saved_id (row ∷ rows) = id_or_failed (D.as_int row (text "id"))

  unfoldable pub save : ℤ → Bytes → Bytes → Bytes → Bytes → D.State → ℤ × D.State
  save user_id filename pdf_b64 signature_b64 sha256_hash s =
      let (r, s') =
        query D insert_document_sql
          (to_string user_id ∷ filename ∷ pdf_b64 ∷ signature_b64 ∷ sha256_hash ∷ []) s in
      (saved_id (rows_or_none r), s')

  unfoldable pub read_document : D.Row → Outcome Document
  read_document row = do
    id ← or_throw sql_error (D.as_int row (text "id"))
    user_id ← or_throw sql_error (D.as_int row (text "user_id"))
    filename ← or_throw sql_error (D.as_text row (text "filename"))
    sha256_hash ← or_throw sql_error (D.as_text row (text "sha256_hash"))
    signature_b64 ← or_throw sql_error (D.as_text row (text "signature"))
    signed_at ← or_throw sql_error (D.as_text row (text "signed_at"))
    returns (record {
      id = id;
      user_id = user_id;
      filename = filename;
      sha256_hash = sha256_hash;
      signature_b64 = signature_b64;
      signed_at = signed_at;
    })

  unfoldable pub first_document : List D.Row → Outcome (Option Document)
  first_document [] = returns none
  first_document (row ∷ rows) = do d ← read_document row; returns (some d)

  unfoldable pub find_by_id : ℤ → Exec D.State (Option Document)
  find_by_id id =
      query D document_by_id_sql (to_string id ∷ []) >>>= λ rows. lift (first_document rows)

  unfoldable pub all_documents : List D.Row → Outcome (List Document)
  all_documents [] = returns []
  all_documents (row ∷ rows) = do
    d ← read_document row
    docs ← all_documents rows
    returns (d ∷ docs)

  unfoldable pub find_by_user_id : ℤ → Exec D.State (List Document)
  find_by_user_id user_id =
      query D documents_by_user_sql (to_string user_id ∷ []) >>>= λ rows. lift (all_documents rows)

  unfoldable pub first_pdf_data : List D.Row → Outcome (Option Bytes)
  first_pdf_data [] = returns none
  first_pdf_data (row ∷ rows) = do
    pdf_data ← or_throw sql_error (D.as_text row (text "pdf_data"))
    returns (some pdf_data)

  unfoldable pub get_pdf_data : ℤ → Exec D.State (Option Bytes)
  get_pdf_data id = query D pdf_data_sql (to_string id ∷ []) >>>= λ rows. lift (first_pdf_data rows)

  unfoldable pub owned_by : ℤ → ℤ → Exec D.State Bool
  owned_by doc_id user_id =
      query D owned_by_sql (to_string doc_id ∷ to_string user_id ∷ []) >>>= λ rows.
      lift (returns (has_rows rows))

  unfoldable pub delete_by_id : ℤ → D.State → Bool × D.State
  delete_by_id id s =
      let (r, s') = query D delete_document_sql (to_string id ∷ []) s in
      (has_rows (rows_or_none r), s')
