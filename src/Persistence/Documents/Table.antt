-- ===== src/Persistence/Documents/Table.antt =====
-- What PostgreSQL documents of the statements of src/persistence/DocumentRepository.cpp on the table
-- of scripts/init.sql, and what the repository's methods do by it.
use pqc_api.Prelude.{
  ◌≡◌, ◌⊎◌, inl, inr, ap, Bool, true, false, Option, none, some, List, [], ◌∷◌, ◌++◌, if◌then◌else◌,
  Bytes, Lacks,
}
use pqc_api.Prelude.Int.{ℤ, pos, ltb_ℤ, eq_ℤ}
use pqc_api.Std.Outcome.{returns, throws, sql_error}
use pqc_api.Std.Decimal.{to_string}
use pqc_api.External.Json.{IsAscii}
use pqc_api.External.Postgres.{Postgres}
use pqc_api.Persistence.PostgreSqlClient.{query}
use pqc_api.Persistence.Documents.{
  Document, has_rows, rows_or_none, saved_id, save, read_document, first_document, find_by_id,
  all_documents, find_by_user_id, first_pdf_data, get_pdf_data, owned_by, delete_by_id,
  insert_document_sql, document_by_id_sql, documents_by_user_sql, pdf_data_sql, owned_by_sql,
  delete_document_sql,
}
use mathlib.Core.Option
use mathlib.Core.List.{Perm}

-- A row of the table: the columns of `Document`, and `pdf_data`.
pub record Stored : Type 0 where
  pub document : Document
  pub pdf_data : Bytes

abbrev pub with_id : ℤ → List Stored → Option Stored
with_id id [] = none
with_id id (d ∷ ds) = if eq_ℤ d.document.id id then some d else with_id id ds

abbrev pub owned : Option Stored → ℤ → Bool
owned none user_id = false
owned (some d) user_id = eq_ℤ d.document.user_id user_id

abbrev pub of_user : ℤ → List Stored → List Document
of_user user_id [] = []
of_user user_id (d ∷ ds) =
    if eq_ℤ d.document.user_id user_id then d.document ∷ of_user user_id ds else of_user user_id ds

abbrev pub without : ℤ → List Stored → List Stored
without id [] = []
without id (d ∷ ds) = if eq_ℤ d.document.id id then without id ds else d ∷ without id ds

abbrev pub is_some {ℓ} : {A : Type ℓ} → Option A → Bool
is_some none = false
is_some (some a) = true

abbrev pub new_row : ℤ → Bytes → Bytes → Bytes → Bytes → ℤ → Bytes → Stored
new_row user_id filename pdf_b64 signature_b64 sha256_hash id signed_at = record {
  document = record {
    id = id;
    user_id = user_id;
    filename = filename;
    sha256_hash = sha256_hash;
    signature_b64 = signature_b64;
    signed_at = signed_at;
  };
  pdf_data = pdf_b64;
}

-- The table after a row was added.
pub record Inserted (user_id : ℤ) (filename pdf_b64 signature_b64 sha256_hash : Bytes) (id : ℤ)
    (before after : List Stored) : Type 0 where
  pub signed_at : Bytes
  pub positive : ltb_ℤ id (pos 0) ≡ false
  pub new : with_id id before ≡ none
  pub added :
      after ≡ before ++ new_row user_id filename pdf_b64 signature_b64 sha256_hash id signed_at ∷ []

module _ (D : Postgres) where
  abbrev pub DocumentRows : List D.Row → Option Stored → Type 0
  DocumentRows rows none = rows ≡ []
  DocumentRows rows (some d) =
      (row : D.Row) × (rows ≡ row ∷ []) × (read_document D row ≡ returns d.document)

  abbrev pub PdfRows : List D.Row → Option Stored → Type 0
  PdfRows rows found = first_pdf_data D rows ≡ returns (Option.map (λ d. d.pdf_data) found)

  abbrev pub Inserts :
      ℤ → Bytes → Bytes → Bytes → Bytes → List Stored → D.State → (D.State → List Stored) → Type 0
  Inserts user_id filename pdf_b64 signature_b64 sha256_hash before s documents =
      let (r, s') =
        query D insert_document_sql
          (to_string user_id ∷ filename ∷ pdf_b64 ∷ signature_b64 ∷ sha256_hash ∷ []) s in
      ((row : D.Row) × (rows : List D.Row) × (id : ℤ) × (r ≡ returns (row ∷ rows))
        × (saved_id D (row ∷ rows) ≡ id)
        × Inserted user_id filename pdf_b64 signature_b64 sha256_hash id before (documents s'))
      ⊎ ((r ≡ throws sql_error) × (documents s' ≡ before))

  pub record DocumentTable : Type 0 where
    -- The texts that a parameter can hold: NUL ends one, and others are refused if they are not in
    -- the encoding of the database.
    pub accepts : Bytes → Bool
    pub accepts_ascii : (t : Bytes) → IsAscii t → Lacks 0 t → accepts t ≡ true
    pub is_up : D.State → Bool
    pub documents : D.State → List Stored
    pub select_by_id :
        (s : D.State) (id : ℤ)
        → is_up s ≡ true
        → (rows : List D.Row) × (query D document_by_id_sql (to_string id ∷ []) s
            ≡ (returns rows, s))
          × DocumentRows rows (with_id id (documents s))
    pub select_pdf :
        (s : D.State) (id : ℤ)
        → is_up s ≡ true
        → (rows : List D.Row) × (query D pdf_data_sql (to_string id ∷ []) s ≡ (returns rows, s))
          × PdfRows rows (with_id id (documents s))
    pub select_by_user :
        (s : D.State) (user_id : ℤ)
        → is_up s ≡ true
        → (rows : List D.Row) × (docs : List Document) × (query D documents_by_user_sql
              (to_string user_id ∷ [])
              s
            ≡ (returns rows, s))
          × (all_documents D rows ≡ returns docs)
          × Perm docs (of_user user_id (documents s))
    pub select_owned :
        (s : D.State) (id user_id : ℤ)
        → is_up s ≡ true
        → (rows : List D.Row) × (query D owned_by_sql (to_string id ∷ to_string user_id ∷ []) s
            ≡ (returns rows, s))
          × (has_rows rows ≡ owned (with_id id (documents s)) user_id)
    -- The row is added under a new id, or the statement fails: an unknown user, a name that is too
    -- long.
    pub insert :
        (s : D.State) (user_id : ℤ) (filename pdf_b64 signature_b64 sha256_hash : Bytes)
        → accepts filename ≡ true
        → accepts pdf_b64 ≡ true
        → accepts signature_b64 ≡ true
        → accepts sha256_hash ≡ true
        → is_up s ≡ true
        → Inserts user_id filename pdf_b64 signature_b64 sha256_hash (documents s) s documents
    pub delete_row :
        (s : D.State) (id : ℤ)
        → is_up s ≡ true
        → (rows : List D.Row) × ((query D delete_document_sql (to_string id ∷ []) s).0
            ≡ returns rows)
          × (has_rows rows ≡ is_some (with_id id (documents s)))
          × (documents (query D delete_document_sql (to_string id ∷ []) s).1
              ≡ without id (documents s))
    -- A lost connection.
    pub down :
        (s : D.State) (sql : Bytes) (params : List Bytes)
        → is_up s ≡ false
        → query D sql params s ≡ (throws sql_error, s)

module _ (D : Postgres) where
  first_document-DocumentRows :
      (rows : List D.Row) (found : Option Stored)
      → DocumentRows D rows found
      → first_document D rows ≡ returns (Option.map (λ d. d.document) found)
  unfolding first_document
  first_document-DocumentRows rows none e = rw (e, first_document)
  first_document-DocumentRows rows (some d) (row, e, reads) = rw (e, first_document, reads)

module _ (D : Postgres) (T : DocumentTable D) (s : D.State) (up : T.is_up s ≡ true) where
  pub find_by_id_lem :
      (id : ℤ)
      → find_by_id D id s ≡ (returns (Option.map (λ d. d.document) (with_id id (T.documents s))), s)
  unfolding find_by_id
  find_by_id_lem id =
      let (rows, selected, fit) = T.select_by_id s id up in
      rw (selected, first_document-DocumentRows D rows _ fit)

  pub get_pdf_data_lem :
      (id : ℤ)
      → get_pdf_data D id s
        ≡ (returns (Option.map (λ d. d.pdf_data) (with_id id (T.documents s))), s)
  unfolding get_pdf_data
  get_pdf_data_lem id = let (rows, selected, fit) = T.select_pdf s id up in rw (selected, fit)

  pub find_by_user_id_lem :
      (user_id : ℤ)
      → (docs : List Document) × (find_by_user_id D user_id s ≡ (returns docs, s))
        × Perm docs (of_user user_id (T.documents s))
  unfolding find_by_user_id
  find_by_user_id_lem user_id =
      let (rows, docs, selected, fit, perm) = T.select_by_user s user_id up in
      (docs, rw (selected, fit), perm)

  pub owned_by_lem :
      (id user_id : ℤ)
      → owned_by D id user_id s ≡ (returns (owned (with_id id (T.documents s)) user_id), s)
  unfolding owned_by
  owned_by_lem id user_id =
      let (rows, selected, fit) = T.select_owned s id user_id up in rw (selected, fit)

  pub delete_by_id_lem :
      (id : ℤ)
      → ((delete_by_id D id s).0 ≡ is_some (with_id id (T.documents s)))
        × (T.documents (delete_by_id D id s).1 ≡ without id (T.documents s))
  unfolding delete_by_id
  delete_by_id_lem id =
      let (rows, deleted, fit, after) = T.delete_row s id up in (rw (deleted, fit), after)

  -- Saving returns the id of a new row that holds the arguments, or -1 and adds nothing.
  pub save_lem :
      (user_id : ℤ) (filename pdf_b64 signature_b64 sha256_hash : Bytes)
      → T.accepts filename ≡ true
      → T.accepts pdf_b64 ≡ true
      → T.accepts signature_b64 ≡ true
      → T.accepts sha256_hash ≡ true
      → Inserted user_id filename pdf_b64 signature_b64 sha256_hash
          (save D user_id filename pdf_b64 signature_b64 sha256_hash s).0
          (T.documents s)
          (T.documents (save D user_id filename pdf_b64 signature_b64 sha256_hash s).1)
        ⊎ (((save D user_id filename pdf_b64 signature_b64 sha256_hash s).0 ≡ saved_id D [])
            × (T.documents (save D user_id filename pdf_b64 signature_b64 sha256_hash s).1
                ≡ T.documents s))
  unfolding save
  save_lem user_id filename pdf_b64 signature_b64 sha256_hash a b c d =
      elim (T.insert s user_id filename pdf_b64 signature_b64 sha256_hash a b c d up) [
        | inl (row, rows, id, done, saved, inserted) ↦ inl (rw (done, saved) inserted)
        | inr (failed, same) ↦ inr (ap (λ r. saved_id D (rows_or_none r)) failed, same)
      ]
