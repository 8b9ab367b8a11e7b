-- ===== src/Persistence/PostgreSqlClient.antt =====
-- src/persistence/PostgreSQLClient.cpp. The mutex makes each call one step on the server's state.
use pqc_api.Prelude.{Bool, true, false, Option, none, some, List, [], ◌∷◌, ◌++◌, Bytes, text}
use pqc_api.Std.Outcome.{Exception, Outcome, returns, throws, sql_error, runtime_error}
use pqc_api.Std.Exec.{Exec}
use pqc_api.External.Postgres.{Postgres}

-- What `pqxx::connection`'s constructor does: a connection that is open or not, a
-- `broken_connection` with its `what()`, or another exception.
pub data Attempt : Type 0 where
  made : Bool → Attempt
  broken : Bytes → Attempt
  failed : Exception → Attempt

-- `PostgreSQLClient::PostgreSQLClient`; of the connection it is kept whether it is open.
unfoldable pub connect : Attempt → Outcome (Option Bool)
connect (made is_open) = returns (some is_open)
connect (broken what) =
    throws (runtime_error (text "[PostgreSQLClient] Connection failed: " ++ what))
connect (failed e) = throws e

-- `PostgreSQLClient::isConnected`
unfoldable pub is_connected : Option Bool → Bool
is_connected none = false
is_connected (some is_open) = is_open

abbrev pub succeeded {ℓ} : {A : Type ℓ} → Outcome A → Bool
succeeded (returns a) = true
succeeded (throws e) = false

module _ (D : Postgres) where
  abbrev run_sql : Bytes → List Bytes → D.Txn → Option (List D.Row × D.Txn)
  run_sql sql [] txn = D.exec sql txn
  run_sql sql (p ∷ ps) txn = D.exec_params sql (p ∷ ps) txn

  abbrev finish {ℓ} : {A : Type ℓ} → A → Bool × D.State → Outcome A × D.State
  finish a (true, s) = (returns a, s)
  finish a (false, s) = (throws sql_error, s)

  abbrev finish_rows : D.Txn → Option (List D.Row × D.Txn) → Outcome (List D.Row) × D.State
  finish_rows txn none = (throws sql_error, D.abort txn)
  finish_rows txn (some (rows, txn')) = finish rows (D.commit txn')

  unfoldable pub query : Bytes → List Bytes → Exec D.State (List D.Row)
  query sql params s = elim (D.begin s) [
    | none ↦ (throws sql_error, s)
    | some txn ↦ finish_rows txn (run_sql sql params txn)
  ]

  -- The same transaction; an exception is caught and reported as false.
  unfoldable pub execute : Bytes → List Bytes → D.State → Bool × D.State
  execute sql params s = let (r, s') = query sql params s in (succeeded r, s')

  abbrev finish_txn : D.Txn → Option D.Txn → Outcome (Unit {0}) × D.State
  finish_txn txn none = (throws sql_error, D.abort txn)
  finish_txn txn (some txn') = finish tt (D.commit txn')

  -- `fn` works on the transaction, or throws.
  unfoldable pub with_transaction : (D.Txn → Option D.Txn) → D.State → Bool × D.State
  with_transaction fn s = elim (D.begin s) [
    | none ↦ (false, s)
    | some txn ↦ let (r, s') = finish_txn txn (fn txn) in (succeeded r, s')
  ]
