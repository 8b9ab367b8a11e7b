-- ===== src/Tests/Fakes/SharedLaws.antt =====
-- What the statements do to the database that holds both tables.
use pqc_api.Prelude.{
  ◌≡◌, ◌⊎◌, refl, inl, inr, Option, none, some, List, [], ◌∷◌, ◌++◌, arith, Bytes, Bool-cases,
  Option-cases,
}
use pqc_api.Prelude.Int.{ℤ}
use pqc_api.Std.Decimal.{to_string}
use pqc_api.Persistence.PostgreSqlClient.{query}
use pqc_api.Persistence.Users.{User, insert_user_sql}
use pqc_api.Persistence.Users.Table.{named}
use pqc_api.Persistence.Users.Grown.{Adds}
use pqc_api.Persistence.Documents.{insert_document_sql, delete_document_sql}
use pqc_api.Persistence.Documents.Table.{Stored, with_id, without}
use pqc_api.Persistence.Shared.{SharedTables, SameTables}
use pqc_api.Tests.Fakes.Stores as Users
use pqc_api.Tests.Fakes.Stores.{select_id, select_name, insert_into, new_user}
use pqc_api.Tests.Fakes.Archive as Documents
use pqc_api.Tests.Fakes.Archive.{
  select_document, select_by_user, select_pdf, select_owned, row_for, inserted, with_id-fresh,
  fresh,
}
use pqc_api.Tests.Fakes.Shared.{Tables, tables}
use pqc_api.Tests.Fakes.SharedUsers as SharedUsers
use pqc_api.Tests.Fakes.SharedUsers.{tables-UserTable, query_down}
use pqc_api.Tests.Fakes.SharedDocuments as SharedDocuments
use pqc_api.Tests.Fakes.SharedDocuments.{tables-DocumentTable, not_of_users}

abbrev Same : Tables → Tables → Type 0
Same = SameTables tables tables-UserTable tables-DocumentTable

-- A statement that, when it runs, gives rows and leaves the table.
abbrev Reads : {A : Type 0} → (List A → Option (List A × List A)) → Type 0
Reads {A} step =
    (table : List A) → (step table ≡ none) ⊎ ((rows : List A) × (step table ≡ some (rows, table)))

select_id-Reads : (params : List Bytes) → Reads (Users.perform select_id params)
unfolding Users.perform
select_id-Reads [] us = inl refl
select_id-Reads (id ∷ []) us = inr (_, refl)
select_id-Reads (id ∷ p ∷ ps) us = inl refl

select_name-Reads : (params : List Bytes) → Reads (Users.perform select_name params)
unfolding Users.perform
select_name-Reads [] us = inl refl
select_name-Reads (name ∷ []) us = inr (_, refl)
select_name-Reads (name ∷ p ∷ ps) us = inl refl

select_document-Reads : (params : List Bytes) → Reads (Documents.perform select_document params)
unfolding Documents.perform
select_document-Reads [] ds = inl refl
select_document-Reads (id ∷ []) ds = inr (_, refl)
select_document-Reads (id ∷ p ∷ ps) ds = inl refl

select_by_user-Reads : (params : List Bytes) → Reads (Documents.perform select_by_user params)
unfolding Documents.perform
select_by_user-Reads [] ds = inl refl
select_by_user-Reads (id ∷ []) ds = inr (_, refl)
select_by_user-Reads (id ∷ p ∷ ps) ds = inl refl

select_pdf-Reads : (params : List Bytes) → Reads (Documents.perform select_pdf params)
unfolding Documents.perform
select_pdf-Reads [] ds = inl refl
select_pdf-Reads (id ∷ []) ds = inr (_, refl)
select_pdf-Reads (id ∷ p ∷ ps) ds = inl refl

select_owned-Reads : (params : List Bytes) → Reads (Documents.perform select_owned params)
unfolding Documents.perform
select_owned-Reads [] ds = inl refl
select_owned-Reads (id ∷ []) ds = inl refl
select_owned-Reads (id ∷ user_id ∷ []) ds = inr (_, refl)
select_owned-Reads (id ∷ user_id ∷ p ∷ ps) ds = inl refl

users_read :
    (sql : Bytes) (statement : Users.Statement)
    → Users.classify sql ≡ some statement
    → ((params : List Bytes) → Reads (Users.perform statement params))
    → (params : List Bytes) (s : Tables) → Same s (query tables sql params s).1
unfolding query
users_read sql statement e reads [] s = elim (Bool-cases s.up) [
  | inr down ↦ rw (query_down s sql [] down) (refl, refl)
  | inl up ↦ elim (reads [] s.users) [
    | inl failed ↦ rw (up, e, failed) (refl, refl)
    | inr (rows, done) ↦ rw (up, e, done) (refl, refl)
  ]
]
users_read sql statement e reads (p ∷ ps) s = elim (Bool-cases s.up) [
  | inr down ↦ rw (query_down s sql (p ∷ ps) down) (refl, refl)
  | inl up ↦ elim (reads (p ∷ ps) s.users) [
    | inl failed ↦ rw (up, e, failed) (refl, refl)
    | inr (rows, done) ↦ rw (up, e, done) (refl, refl)
  ]
]

documents_read :
    (sql : Bytes) (statement : Documents.Statement)
    → Users.classify sql ≡ none
    → Documents.classify sql ≡ some statement
    → ((params : List Bytes) → Reads (Documents.perform statement params))
    → (params : List Bytes) (s : Tables) → Same s (query tables sql params s).1
unfolding query
documents_read sql statement other e reads [] s = elim (Bool-cases s.up) [
  | inr down ↦ rw (query_down s sql [] down) (refl, refl)
  | inl up ↦ elim (reads [] s.documents) [
    | inl failed ↦ rw (up, other, e, failed) (refl, refl)
    | inr (rows, done) ↦ rw (up, other, e, done) (refl, refl)
  ]
]
documents_read sql statement other e reads (p ∷ ps) s = elim (Bool-cases s.up) [
  | inr down ↦ rw (query_down s sql (p ∷ ps) down) (refl, refl)
  | inl up ↦ elim (reads (p ∷ ps) s.documents) [
    | inl failed ↦ rw (up, other, e, failed) (refl, refl)
    | inr (rows, done) ↦ rw (up, other, e, done) (refl, refl)
  ]
]

insert_user_lem :
    (name hash : Bytes) (s : Tables)
    → let t = (query tables insert_user_sql (name ∷ hash ∷ []) s).1 in
      (t.documents ≡ s.documents)
      × ((t.users ≡ s.users) ⊎ ((row : User) × Adds s.users row t.users))
insert_user_lem name hash s = elim (Bool-cases s.up) [
  | inr down ↦ rw (query_down s insert_user_sql (name ∷ hash ∷ []) down) (refl, inl refl)
  | inl up ↦ elim (Option-cases (named name s.users)) [
    | inr (u, taken) ↦ rw (SharedUsers.insert s up name hash, taken) (refl, inl refl)
    | inl free ↦
        let i = SharedUsers.inserted s up name hash free in
        rw (SharedUsers.insert s up name hash, free)
          (refl, inr (i.row, record { added = i.added; plain = i.row_role; new_id = i.row_id }))
  ]
]

delete_document_lem :
    (id : ℤ) (s : Tables)
    → let t = (query tables delete_document_sql (to_string id ∷ []) s).1 in
      (t.users ≡ s.users) × ((t.documents ≡ s.documents) ⊎ (t.documents ≡ without id s.documents))
delete_document_lem id s = elim (Bool-cases s.up) [
  | inr down ↦ rw (query_down s delete_document_sql (to_string id ∷ []) down) (refl, inl refl)
  | inl up ↦ rw (SharedDocuments.delete s up id) (refl, inr refl)
]

insert_document_lem :
    (user_id filename pdf_b64 signature_b64 sha256_hash : Bytes) (s : Tables)
    → let t =
        (query tables insert_document_sql
          (user_id ∷ filename ∷ pdf_b64 ∷ signature_b64 ∷ sha256_hash ∷ [])
          s).1 in
      (t.users ≡ s.users)
      × ((t.documents ≡ s.documents)
          ⊎ ((row : Stored) × (t.documents ≡ s.documents ++ row ∷ [])
              × (with_id row.document.id s.documents ≡ none)))
unfolding query Documents.perform
insert_document_lem user_id filename pdf_b64 signature_b64 sha256_hash s = elim (Bool-cases s.up) [
  | inr down ↦ rw (query_down s insert_document_sql _ down) (refl, inl refl)
  | inl up ↦
      rw (up, not_of_users.0, Documents.classified.0)
        (refl, inr (_, refl, with_id-fresh s.documents (fresh s.documents) (omega arith)))
]

pub tables-SharedTables : SharedTables tables tables-UserTable tables-DocumentTable
tables-SharedTables = record {
  reads = (
    users_read _ select_id Users.classified.1 select_id-Reads,
    (
      users_read _ select_name Users.classified.2 select_name-Reads,
      (
        documents_read _ select_document not_of_users.1 Documents.classified.1
            select_document-Reads,
        (
          documents_read _ select_by_user not_of_users.2 Documents.classified.2
              select_by_user-Reads,
          (
            documents_read _ select_pdf not_of_users.3 Documents.classified.3 select_pdf-Reads,
            (
              documents_read _ select_owned not_of_users.4 Documents.classified.4
                  select_owned-Reads,
              tt,
            ),
          ),
        ),
      ),
    ),
  );
  insert_user = insert_user_lem;
  insert_document = insert_document_lem;
  delete_document = delete_document_lem;
}
