-- ===== src/External/Postgres.antt =====
-- A PostgreSQL connection behind libpqxx, as src/persistence/PostgreSQLClient.cpp uses it.
use pqc_api.Prelude.{Bool, Option, List, Bytes}
use pqc_api.Prelude.Int.{ℤ}

pub record Postgres : Type 1 where
  pub State : Type 0
  pub Txn : Type 0
  pub Row : Type 0
  -- The constructor of `pqxx::work`; `none` throws, as it does below.
  pub begin : State → Option Txn
  pub exec : Bytes → Txn → Option (List Row × Txn)
  pub exec_params : Bytes → List Bytes → Txn → Option (List Row × Txn)
  -- Whether `commit` returned, and what the server holds then.
  pub commit : Txn → Bool × State
  -- The destructor of a transaction that was not committed.
  pub abort : Txn → State
  -- `row[column].as<int>()` and `row[column].c_str()`
  pub as_int : Row → Bytes → Option ℤ
  pub as_text : Row → Bytes → Option Bytes
