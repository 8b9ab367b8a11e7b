-- ===== src/Tests/Fakes/Shared.antt =====
-- One database that holds both tables.
use pqc_api.Prelude.{
  ◌≡◌, refl, inl, inr, Bool, true, false, Option, none, some, List, [], ◌∷◌, map, Bytes, Bool-cases,
  Option-cases,
}
use pqc_api.Prelude.Int.{ℤ}
use pqc_api.Std.Outcome.{Outcome, returns, throws}
use pqc_api.External.Postgres.{Postgres}
use pqc_api.Persistence.PostgreSqlClient.{query}
use pqc_api.Persistence.Users.{User}
use pqc_api.Persistence.Documents.Table.{Stored}
use pqc_api.Tests.Fakes.Stores as Users
use pqc_api.Tests.Fakes.Stores.{Database, postgres}
use pqc_api.Tests.Fakes.Archive as Documents
use pqc_api.Tests.Fakes.Archive.{Archive, archive}
use mathlib.Core.Option

pub data Row : Type 0 where
  user : User → Row
  document : Stored → Row

pub record Tables : Type 0 where
  pub up : Bool
  pub users : List User
  pub documents : List Stored

abbrev pub users_of : Tables → Database
users_of s = record { up = s.up; users = s.users }

abbrev pub documents_of : Tables → Archive
documents_of s = record { up = s.up; documents = s.documents }

abbrev pub user_result : Tables → List User × Database → List Row × Tables
user_result s (rows, d) = (map user rows, record s { users = d.users })

abbrev pub document_result : Tables → List Stored × Archive → List Row × Tables
document_result s (rows, d) = (map document rows, record s { documents = d.documents })

abbrev pub run_on :
    Option Users.Statement
    → Option Documents.Statement
    → List Bytes
    → Tables
    → Option (List Row × Tables)
run_on (some statement) other params s =
    Option.map (user_result s) (Users.run_on (some statement) params (users_of s))
run_on none other params s =
    Option.map (document_result s) (Documents.run_on other params (documents_of s))

abbrev pub begin_at : Bool → Tables → Option Tables
begin_at true s = some s
begin_at false s = none

abbrev pub int_column : Row → Bytes → Option ℤ
int_column (user u) column = Users.int_column u column
int_column (document d) column = Documents.int_column d column

abbrev pub text_column : Row → Bytes → Option Bytes
text_column (user u) column = Users.text_column u column
text_column (document d) column = Documents.text_column d column

abbrev pub tables : Postgres
tables = record {
  State = Tables;
  Txn = Tables;
  Row = Row;
  begin = λ s. begin_at s.up s;
  exec = λ sql s. run_on (Users.classify sql) (Documents.classify sql) [] s;
  exec_params = λ sql params s. run_on (Users.classify sql) (Documents.classify sql) params s;
  commit = λ s. (true, s);
  abort = λ s. s;
  as_int = int_column;
  as_text = text_column;
}

abbrev pub lift_users : Tables → Outcome (List User) × Database → Outcome (List Row) × Tables
lift_users s (returns rows, d) = (returns (map user rows), record s { users = d.users })
lift_users s (throws e, d) = (throws e, s)

abbrev pub lift_documents : Tables → Outcome (List Stored) × Archive → Outcome (List Row) × Tables
lift_documents s (returns rows, d) =
    (returns (map document rows), record s { documents = d.documents })
lift_documents s (throws e, d) = (throws e, s)

-- A statement on one table runs as it does in the database that holds only this table.
pub query-user :
    (sql : Bytes) (p : Bytes) (ps : List Bytes) (s : Tables) (statement : Users.Statement)
    → Users.classify sql ≡ some statement
    → query tables sql (p ∷ ps) s ≡ lift_users s (query postgres sql (p ∷ ps) (users_of s))
unfolding query
query-user sql p ps s statement e = elim (Bool-cases s.up) [
  | inr down ↦ rw down refl
  | inl up ↦ elim (Option-cases (Users.perform statement (p ∷ ps) s.users)) [
    | inl failed ↦ rw (up, e, failed) refl
    | inr (r, done) ↦ rw (up, e, done) refl
  ]
]

pub query-document :
    (sql : Bytes) (p : Bytes) (ps : List Bytes) (s : Tables) (statement : Documents.Statement)
    → Users.classify sql ≡ none
    → Documents.classify sql ≡ some statement
    → query tables sql (p ∷ ps) s ≡ lift_documents s (query archive sql (p ∷ ps) (documents_of s))
unfolding query
query-document sql p ps s statement none_of_users e = elim (Bool-cases s.up) [
  | inr down ↦ rw down refl
  | inl up ↦ elim (Option-cases (Documents.perform statement (p ∷ ps) s.documents)) [
    | inl failed ↦ rw (up, none_of_users, e, failed) refl
    | inr (r, done) ↦ rw (up, none_of_users, e, done) refl
  ]
]
