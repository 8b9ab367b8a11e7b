-- ===== src/Tests/Fakes/Archive.antt =====
-- A table of documents in memory.
use pqc_api.Prelude.{
  ℕ, suc, ◌+◌, ◌≤◌, ◌≡◌, refl, inl, inr, Bool-cases, Bool, true, false, Option, none, some, List,
  [], ◌∷◌, ◌++◌, arith, if◌then◌else◌, Bytes, text, str_eq,
}
use pqc_api.Prelude.Int.{ℤ, pos, pos_part, eq_ℤ}
use pqc_api.Std.Outcome.{returns, throws, sql_error}
use pqc_api.Std.Decimal.{to_string}
use pqc_api.External.Postgres.{Postgres}
use pqc_api.Persistence.PostgreSqlClient.{query}
use pqc_api.Persistence.Documents.{
  has_rows, all_documents, read_document, first_pdf_data, insert_document_sql, document_by_id_sql,
  documents_by_user_sql, pdf_data_sql, owned_by_sql, delete_document_sql,
}
use pqc_api.Persistence.Documents.Table.{
  Stored, DocumentTable, DocumentRows, PdfRows, Inserts, Inserted, new_row, with_id, owned, of_user,
  without, is_some,
}
use pqc_api.Tests.Fakes.Text.{read_number, read_number-to_string}
use mathlib.Core.Option
use mathlib.Core.Option.{some-injective}
use mathlib.Core.List.Perm

pub record Archive : Type 0 where
  pub up : Bool
  pub documents : List Stored

pub data Statement : Type 0 where
  insert_document select_document select_by_user select_pdf select_owned delete_document : Statement

unfoldable pub classify : Bytes → Option Statement
classify sql =
    if str_eq sql insert_document_sql
    then some insert_document
    else if str_eq sql document_by_id_sql
    then some select_document
    else if str_eq sql documents_by_user_sql
    then some select_by_user
    else if str_eq sql pdf_data_sql
    then some select_pdf
    else if str_eq sql owned_by_sql
    then some select_owned
    else if str_eq sql delete_document_sql
    then some delete_document
    else none

pub classified :
    (classify insert_document_sql ≡ some insert_document)
    × (classify document_by_id_sql ≡ some select_document)
    × (classify documents_by_user_sql ≡ some select_by_user)
    × (classify pdf_data_sql ≡ some select_pdf)
    × (classify owned_by_sql ≡ some select_owned)
    × (classify delete_document_sql ≡ some delete_document)
unfolding classify str_eq text
classified = (refl, refl, refl, refl, refl, refl)

abbrev pub rows_of : Option Stored → List Stored
rows_of none = []
rows_of (some d) = d ∷ []

abbrev pub rows_of_user : ℤ → List Stored → List Stored
rows_of_user user_id [] = []
rows_of_user user_id (d ∷ ds) =
    if eq_ℤ d.document.user_id user_id then d ∷ rows_of_user user_id ds else rows_of_user user_id ds

-- Above every id in use.
unfoldable pub fresh : List Stored → ℕ
fresh [] = 1
fresh (d ∷ ds) = suc (pos_part d.document.id + fresh ds)

abbrev pub owned_rows : Option Stored → ℤ → List Stored
owned_rows none user_id = []
owned_rows (some d) user_id = if eq_ℤ d.document.user_id user_id then d ∷ [] else []

abbrev pub row_for : ℤ → Bytes → Bytes → Bytes → Bytes → List Stored → Stored
row_for user_id filename pdf signature sha256 ds =
    new_row user_id filename pdf signature sha256 (pos (fresh ds)) (text "2026-01-01 00:00:00")

unfoldable pub perform : Statement → List Bytes → List Stored → Option (List Stored × List Stored)
perform insert_document (user_id ∷ filename ∷ pdf ∷ signature ∷ sha256 ∷ []) ds =
    let row = row_for (read_number user_id) filename pdf signature sha256 ds in
    some (row ∷ [], ds ++ row ∷ [])
perform select_document (id ∷ []) ds = some (rows_of (with_id (read_number id) ds), ds)
perform select_by_user (user_id ∷ []) ds = some (rows_of_user (read_number user_id) ds, ds)
perform select_pdf (id ∷ []) ds = some (rows_of (with_id (read_number id) ds), ds)
perform select_owned (id ∷ user_id ∷ []) ds =
    some (owned_rows (with_id (read_number id) ds) (read_number user_id), ds)
perform delete_document (id ∷ []) ds =
    some (rows_of (with_id (read_number id) ds), without (read_number id) ds)
perform statement params ds = none

abbrev pub begin_at : Bool → Archive → Option Archive
begin_at true s = some s
begin_at false s = none

abbrev pub run_on : Option Statement → List Bytes → Archive → Option (List Stored × Archive)
run_on none params s = none
run_on (some statement) params s =
    Option.map (λ (rows, ds). (rows, record s { documents = ds }))
      (perform statement params s.documents)

abbrev pub int_column : Stored → Bytes → Option ℤ
int_column d column =
    if str_eq column (text "id")
    then some d.document.id
    else if str_eq column (text "user_id")
    then some d.document.user_id
    else none

abbrev pub text_column : Stored → Bytes → Option Bytes
text_column d column =
    if str_eq column (text "filename")
    then some d.document.filename
    else if str_eq column (text "sha256_hash")
    then some d.document.sha256_hash
    else if str_eq column (text "signature")
    then some d.document.signature_b64
    else if str_eq column (text "signed_at")
    then some d.document.signed_at
    else if str_eq column (text "pdf_data")
    then some d.pdf_data
    else none

abbrev pub archive : Postgres
archive = record {
  State = Archive;
  Txn = Archive;
  Row = Stored;
  begin = λ s. begin_at s.up s;
  exec = λ sql s. run_on (classify sql) [] s;
  exec_params = λ sql params s. run_on (classify sql) params s;
  commit = λ s. (true, s);
  abort = λ s. s;
  as_int = int_column;
  as_text = text_column;
}

pub read_document-row : (d : Stored) → read_document archive d ≡ returns d.document
unfolding read_document str_eq text
read_document-row d = refl

pub as_text-pdf_data : (d : Stored) → archive.as_text d (text "pdf_data") ≡ some d.pdf_data
unfolding str_eq text
as_text-pdf_data d = refl

as_int-id : (d : Stored) → archive.as_int d (text "id") ≡ some d.document.id
unfolding str_eq text
as_int-id d = refl

pub DocumentRows-rows_of : (found : Option Stored) → DocumentRows archive (rows_of found) found
DocumentRows-rows_of none = refl
DocumentRows-rows_of (some d) = (d, refl, read_document-row d)

pub PdfRows-rows_of : (found : Option Stored) → PdfRows archive (rows_of found) found
unfolding first_pdf_data
PdfRows-rows_of none = refl
PdfRows-rows_of (some d) = rw (as_text-pdf_data d) refl

pub all_documents-rows_of_user :
    (user_id : ℤ) (ds : List Stored)
    → all_documents archive (rows_of_user user_id ds) ≡ returns (of_user user_id ds)
unfolding all_documents
all_documents-rows_of_user user_id [] = refl
all_documents-rows_of_user user_id (d ∷ ds) = elim (Bool-cases (eq_ℤ d.document.user_id user_id)) [
  | inl own ↦ rw (own, read_document-row d, all_documents-rows_of_user user_id ds) refl
  | inr foreign ↦ rw (foreign, all_documents-rows_of_user user_id ds) refl
]

pub has_rows-rows_of : (found : Option Stored) → has_rows (rows_of found) ≡ is_some found
has_rows-rows_of none = refl
has_rows-rows_of (some d) = refl

pub has_rows-owned_rows :
    (found : Option Stored) (user_id : ℤ)
    → has_rows (owned_rows found user_id) ≡ owned found user_id
has_rows-owned_rows none user_id = refl
has_rows-owned_rows (some d) user_id = ground arith

pub with_id-fresh : (ds : List Stored) (n : ℕ) → fresh ds ≤ n → with_id (pos n) ds ≡ none
unfolding fresh
with_id-fresh [] n h = refl
with_id-fresh (d ∷ ds) n h = ground (arith, with_id-fresh ds n)

pub inserted :
    (user_id : ℤ) (filename pdf signature sha256 : Bytes) (ds : List Stored)
    → let row = row_for user_id filename pdf signature sha256 ds in
      Inserted user_id filename pdf signature sha256 row.document.id ds (ds ++ row ∷ [])
inserted user_id filename pdf signature sha256 ds = record {
  signed_at = text "2026-01-01 00:00:00";
  positive = ground arith;
  new = with_id-fresh ds (fresh ds) (omega arith);
  added = refl;
}

module _ (s : Archive) (up : s.up ≡ true) where
  pub query-select_document :
      (id : ℤ)
      → query archive document_by_id_sql (to_string id ∷ []) s
        ≡ (returns (rows_of (with_id id s.documents)), s)
  unfolding query perform
  query-select_document id = rw (up, classified.1, read_number-to_string)

  pub query-select_by_user :
      (user_id : ℤ)
      → query archive documents_by_user_sql (to_string user_id ∷ []) s
        ≡ (returns (rows_of_user user_id s.documents), s)
  unfolding query perform
  query-select_by_user user_id = rw (up, classified.2, read_number-to_string)

  pub query-select_pdf :
      (id : ℤ)
      → query archive pdf_data_sql (to_string id ∷ []) s
        ≡ (returns (rows_of (with_id id s.documents)), s)
  unfolding query perform
  query-select_pdf id = rw (up, classified.3, read_number-to_string)

  pub query-select_owned :
      (id user_id : ℤ)
      → query archive owned_by_sql (to_string id ∷ to_string user_id ∷ []) s
        ≡ (returns (owned_rows (with_id id s.documents) user_id), s)
  unfolding query perform
  query-select_owned id user_id =
      rw (up, classified.4, read_number-to_string id, read_number-to_string user_id)

  pub query-delete :
      (id : ℤ)
      → query archive delete_document_sql (to_string id ∷ []) s ≡ (
        returns (rows_of (with_id id s.documents)),
        record s { documents = without id s.documents },
      )
  unfolding query perform
  query-delete id = rw (up, classified.5, read_number-to_string)

  pub query-insert :
      (user_id : ℤ) (filename pdf signature sha256 : Bytes)
      → query archive insert_document_sql
          (to_string user_id ∷ filename ∷ pdf ∷ signature ∷ sha256 ∷ [])
          s
        ≡ (
          returns (row_for user_id filename pdf signature sha256 s.documents ∷ []),
          record s {
            documents =
                s.documents ++ row_for user_id filename pdf signature sha256 s.documents ∷ [];
          },
        )
  unfolding query perform
  query-insert user_id filename pdf signature sha256 = rw (up, classified.0, read_number-to_string)

  pub insert_lem :
      (user_id : ℤ) (filename pdf signature sha256 : Bytes)
      → Inserts archive user_id filename pdf signature sha256 s.documents s (λ s. s.documents)
  insert_lem user_id filename pdf signature sha256 =
      rw (query-insert user_id filename pdf signature sha256) (
        inl (
          row_for user_id filename pdf signature sha256 s.documents,
          [],
          pos (fresh s.documents),
          refl,
          rw (as_int-id (row_for user_id filename pdf signature sha256 s.documents)) refl,
          inserted user_id filename pdf signature sha256 s.documents,
        ))

pub query-down :
    (s : Archive) (sql : Bytes) (params : List Bytes)
    → s.up ≡ false
    → query archive sql params s ≡ (throws sql_error, s)
unfolding query
query-down s sql params e = rw e

abbrev pub archive-DocumentTable : DocumentTable archive
archive-DocumentTable = record {
  accepts = λ t. true;
  accepts_ascii = λ t a l. refl;
  is_up = λ s. s.up;
  documents = λ s. s.documents;
  select_by_id =
      λ s id up. (_, query-select_document s up id, DocumentRows-rows_of (with_id id s.documents));
  select_pdf = λ s id up. (_, query-select_pdf s up id, PdfRows-rows_of (with_id id s.documents));
  select_by_user = λ s user_id up. (
    _,
    _,
    query-select_by_user s up user_id,
    all_documents-rows_of_user user_id s.documents,
    Perm.refl (of_user user_id s.documents),
  );
  select_owned = λ s id user_id up.
      (_, query-select_owned s up id user_id, has_rows-owned_rows (with_id id s.documents) user_id);
  insert = λ s user_id filename pdf signature sha256 a b c d up.
      insert_lem s up user_id filename pdf signature sha256;
  delete_row = λ s id up. (
    rows_of (with_id id s.documents),
    rw (query-delete s up id) refl,
    has_rows-rows_of (with_id id s.documents),
    rw (query-delete s up id) refl,
  );
  down = query-down;
}
