-- ===== src/Tests/Fakes/SharedDocuments.antt =====
-- The documents table of the database that holds both.
use pqc_api.Prelude.{
  ◌≡◌, refl, ◌∙◌, ap, inl, true, Option, none, some, List, [], ◌∷◌, ◌++◌, map, Bytes, text, str_eq,
}
use pqc_api.Prelude.Int.{ℤ}
use pqc_api.Std.Outcome.{returns}
use pqc_api.Std.Decimal.{to_string}
use pqc_api.Persistence.PostgreSqlClient.{query}
use pqc_api.Persistence.Documents.{
  has_rows, all_documents, read_document, first_pdf_data, saved_id, insert_document_sql,
  document_by_id_sql, documents_by_user_sql, pdf_data_sql, owned_by_sql, delete_document_sql,
}
use pqc_api.Persistence.Documents.Table.{
  Stored, DocumentTable, DocumentRows, PdfRows, Inserts, with_id, of_user, without,
}
use pqc_api.Tests.Fakes.Stores as UserFake
use pqc_api.Tests.Fakes.Archive as Fake
use pqc_api.Tests.Fakes.Archive.{rows_of, rows_of_user, owned_rows, row_for, archive}
use pqc_api.Tests.Fakes.Shared.{
  Tables, document, tables, documents_of, lift_documents, query-document,
}
use pqc_api.Tests.Fakes.SharedUsers.{query_down}
use mathlib.Core.List.Perm

pub not_of_users :
    (UserFake.classify insert_document_sql ≡ none)
    × (UserFake.classify document_by_id_sql ≡ none)
    × (UserFake.classify documents_by_user_sql ≡ none)
    × (UserFake.classify pdf_data_sql ≡ none)
    × (UserFake.classify owned_by_sql ≡ none)
    × (UserFake.classify delete_document_sql ≡ none)
unfolding UserFake.classify str_eq text
not_of_users = (refl, refl, refl, refl, refl, refl)

read_document-document : (d : Stored) → read_document tables (document d) ≡ returns d.document
unfolding read_document str_eq text
read_document-document d = refl

as_text-document : (d : Stored) → tables.as_text (document d) (text "pdf_data") ≡ some d.pdf_data
unfolding str_eq text
as_text-document d = refl

saved_id-document : (d : Stored) → saved_id tables (document d ∷ []) ≡ d.document.id
unfolding str_eq text
saved_id-document d = refl

pub DocumentRows-document :
    (found : Option Stored) → DocumentRows tables (map document (rows_of found)) found
DocumentRows-document none = refl
DocumentRows-document (some d) = (document d, refl, read_document-document d)

pub PdfRows-document : (found : Option Stored) → PdfRows tables (map document (rows_of found)) found
unfolding first_pdf_data
PdfRows-document none = refl
PdfRows-document (some d) = rw (as_text-document d) refl

all_documents-document :
    (ds : List Stored) → all_documents tables (map document ds) ≡ all_documents archive ds
unfolding all_documents
all_documents-document [] = refl
all_documents-document (d ∷ ds) =
    rw (read_document-document d, Fake.read_document-row d, all_documents-document ds) refl

pub has_rows-document : (ds : List Stored) → has_rows (map document ds) ≡ has_rows ds
has_rows-document [] = refl
has_rows-document (d ∷ ds) = refl

module _ (s : Tables) (up : s.up ≡ true) where
  pub by_id :
      (id : ℤ)
      → query tables document_by_id_sql (to_string id ∷ []) s
        ≡ (returns (map document (rows_of (with_id id s.documents))), s)
  by_id id =
      query-document document_by_id_sql (to_string id) [] s _ not_of_users.1 Fake.classified.1
      ∙ ap (lift_documents s) (Fake.query-select_document (documents_of s) up id)

  pub by_user :
      (user_id : ℤ)
      → query tables documents_by_user_sql (to_string user_id ∷ []) s
        ≡ (returns (map document (rows_of_user user_id s.documents)), s)
  by_user user_id =
      query-document documents_by_user_sql (to_string user_id) [] s _ not_of_users.2
        Fake.classified.2
      ∙ ap (lift_documents s) (Fake.query-select_by_user (documents_of s) up user_id)

  pub pdf :
      (id : ℤ)
      → query tables pdf_data_sql (to_string id ∷ []) s
        ≡ (returns (map document (rows_of (with_id id s.documents))), s)
  pdf id =
      query-document pdf_data_sql (to_string id) [] s _ not_of_users.3 Fake.classified.3
      ∙ ap (lift_documents s) (Fake.query-select_pdf (documents_of s) up id)

  pub by_owner :
      (id user_id : ℤ)
      → query tables owned_by_sql (to_string id ∷ to_string user_id ∷ []) s
        ≡ (returns (map document (owned_rows (with_id id s.documents) user_id)), s)
  by_owner id user_id =
      query-document owned_by_sql (to_string id) (to_string user_id ∷ []) s _ not_of_users.4
        Fake.classified.4
      ∙ ap (lift_documents s) (Fake.query-select_owned (documents_of s) up id user_id)

  pub delete :
      (id : ℤ)
      → query tables delete_document_sql (to_string id ∷ []) s ≡ (
        returns (map document (rows_of (with_id id s.documents))),
        record s { documents = without id s.documents },
      )
  delete id =
      query-document delete_document_sql (to_string id) [] s _ not_of_users.5 Fake.classified.5
      ∙ ap (lift_documents s) (Fake.query-delete (documents_of s) up id)

  pub insert :
      (user_id : ℤ) (filename pdf_b64 signature sha256 : Bytes)
      → let row = row_for user_id filename pdf_b64 signature sha256 s.documents in
        query tables insert_document_sql
          (to_string user_id ∷ filename ∷ pdf_b64 ∷ signature ∷ sha256 ∷ [])
          s
        ≡ (returns (document row ∷ []), record s { documents = s.documents ++ row ∷ [] })
  insert user_id filename pdf_b64 signature sha256 =
      query-document insert_document_sql (to_string user_id)
        (filename ∷ pdf_b64 ∷ signature ∷ sha256 ∷ []) s _ not_of_users.0 Fake.classified.0
      ∙ ap (lift_documents s)
          (Fake.query-insert (documents_of s) up user_id filename pdf_b64 signature sha256)

  pub insert_lem :
      (user_id : ℤ) (filename pdf_b64 signature sha256 : Bytes)
      → Inserts tables user_id filename pdf_b64 signature sha256 s.documents s (λ t. t.documents)
  insert_lem user_id filename pdf_b64 signature sha256 =
      let row = row_for user_id filename pdf_b64 signature sha256 s.documents in
      rw (insert user_id filename pdf_b64 signature sha256) (
        inl (
          document row,
          [],
          row.document.id,
          refl,
          saved_id-document row,
          Fake.inserted user_id filename pdf_b64 signature sha256 s.documents,
        ))

  pub select_by_user_lem :
      (user_id : ℤ)
      → all_documents tables (map document (rows_of_user user_id s.documents))
        ≡ returns (of_user user_id s.documents)
  select_by_user_lem user_id =
      all_documents-document _ ∙ Fake.all_documents-rows_of_user user_id s.documents

abbrev pub tables-DocumentTable : DocumentTable tables
tables-DocumentTable = record {
  accepts = λ t. true;
  accepts_ascii = λ t a l. refl;
  is_up = λ s. s.up;
  documents = λ s. s.documents;
  select_by_id = λ s id up. (_, by_id s up id, DocumentRows-document (with_id id s.documents));
  select_pdf = λ s id up. (_, pdf s up id, PdfRows-document (with_id id s.documents));
  select_by_user = λ s user_id up. (
    _,
    _,
    by_user s up user_id,
    select_by_user_lem s up user_id,
    Perm.refl (of_user user_id s.documents),
  );
  select_owned = λ s id user_id up. (
    _,
    by_owner s up id user_id,
    has_rows-document (owned_rows (with_id id s.documents) user_id)
        ∙ Fake.has_rows-owned_rows (with_id id s.documents) user_id,
  );
  insert = λ s user_id filename pdf_b64 signature sha256 a b c d up.
      insert_lem s up user_id filename pdf_b64 signature sha256;
  delete_row = λ s id up. (
    map document (rows_of (with_id id s.documents)),
    rw (delete s up id) refl,
    has_rows-document (rows_of (with_id id s.documents))
        ∙ Fake.has_rows-rows_of (with_id id s.documents),
    rw (delete s up id) refl,
  );
  down = query_down;
}
