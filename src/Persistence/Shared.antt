-- ===== src/Persistence/Shared.antt =====
-- The two tables of scripts/init.sql in one database: what each statement of the repositories can do
-- to them, whatever its parameters are, whether it succeeds, fails, or finds no connection.
use pqc_api.Prelude.{◌≡◌, ◌⊎◌, none, List, [], ◌∷◌, ◌++◌, All, Bytes}
use pqc_api.Prelude.Int.{ℤ}
use pqc_api.Std.Decimal.{to_string}
use pqc_api.External.Postgres.{Postgres}
use pqc_api.Persistence.PostgreSqlClient.{query}
use pqc_api.Persistence.Users.{User, insert_user_sql, user_by_id_sql, user_by_name_sql}
use pqc_api.Persistence.Users.Table.{UserTable}
use pqc_api.Persistence.Users.Grown.{Adds}
use pqc_api.Persistence.Documents.{
  insert_document_sql, document_by_id_sql, documents_by_user_sql, pdf_data_sql, owned_by_sql,
  delete_document_sql,
}
use pqc_api.Persistence.Documents.Table.{Stored, DocumentTable, with_id, without}

-- The SELECT statements.
abbrev pub selects : List Bytes
selects =
    user_by_id_sql ∷ user_by_name_sql ∷ document_by_id_sql ∷ documents_by_user_sql ∷ pdf_data_sql
    ∷ owned_by_sql ∷ []

module _ (D : Postgres) (T : UserTable D) (U : DocumentTable D) where
  abbrev pub SameTables : D.State → D.State → Type 0
  SameTables s t = (T.users t ≡ T.users s) × (U.documents t ≡ U.documents s)

  -- A SELECT changes no row. An INSERT adds one row, under a new id and for a user with the default
  -- role, or none. A DELETE takes the row of the id away, or none.
  pub record SharedTables : Type 0 where
    pub reads :
        All
          (λ sql. (params : List Bytes) (s : D.State) → SameTables s (query D sql params s).1)
          selects
    pub insert_user :
        (name hash : Bytes) (s : D.State)
        → (U.documents (query D insert_user_sql (name ∷ hash ∷ []) s).1 ≡ U.documents s)
          × ((T.users (query D insert_user_sql (name ∷ hash ∷ []) s).1 ≡ T.users s)
              ⊎ ((row : User) × Adds
                    (T.users s)
                    row
                    (T.users (query D insert_user_sql (name ∷ hash ∷ []) s).1)))
    pub insert_document :
        (user_id filename pdf_b64 signature_b64 sha256_hash : Bytes) (s : D.State)
        → let t =
            (query D insert_document_sql
              (user_id ∷ filename ∷ pdf_b64 ∷ signature_b64 ∷ sha256_hash ∷ [])
              s).1 in
          (T.users t ≡ T.users s)
          × ((U.documents t ≡ U.documents s)
              ⊎ ((row : Stored) × (U.documents t ≡ U.documents s ++ row ∷ [])
                  × (with_id row.document.id (U.documents s) ≡ none)))
    pub delete_document :
        (id : ℤ) (s : D.State)
        → (T.users (query D delete_document_sql (to_string id ∷ []) s).1 ≡ T.users s)
          × ((U.documents (query D delete_document_sql (to_string id ∷ []) s).1 ≡ U.documents s)
              ⊎ (U.documents (query D delete_document_sql (to_string id ∷ []) s).1
                  ≡ without id (U.documents s)))
