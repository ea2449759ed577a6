-- ===== src/Database.antt =====
-- aperturedb/interface.go and aperturedb/sqlerrors.go: transactions that are tried again. The
-- drivers of the databases are a parameter.
pub mod Atomic
pub mod Secrets
pub mod Kept
use aperture.Prelude.{
  ◌*◌, ℕ, zero, suc, Bool, true, false, List, [], ◌∷◌, if◌then◌else◌, ◌==◌, bytes_eq, Bytes, Error,
  err_unique_violation, err_serialization, err_retries_exceeded, sqlite_error, postgres_error,
  Result, ok, err, pos, ℤ,
}

-- The codes that the drivers' packages name SQLITE_CONSTRAINT_UNIQUE, UniqueViolation and
-- SerializationFailure.
pub record SqlCodes : Type 0 where
  pub sqlite_constraint_unique : ℕ
  pub unique_violation : Bytes
  pub serialization_failure : Bytes

-- parseSqliteError and parsePostgresError: other errors are wrapped.
unfoldable pub parse_sqlite_error : SqlCodes → ℕ → Error
parse_sqlite_error codes code =
    if code == codes.sqlite_constraint_unique then err_unique_violation else sqlite_error code

unfoldable pub parse_postgres_error : SqlCodes → Bytes → Error
parse_postgres_error codes code =
    if bytes_eq code codes.unique_violation
    then err_unique_violation
    else (if bytes_eq code codes.serialization_failure
        then err_serialization
        else postgres_error code)

-- MapSQLError
unfoldable pub map_sql_error : SqlCodes → Error → Error
unfolding parse_sqlite_error parse_postgres_error
map_sql_error codes (sqlite_error code) = parse_sqlite_error codes code
map_sql_error codes (postgres_error code) = parse_postgres_error codes code
map_sql_error codes e = e

-- errors.As for ErrSerializationError
abbrev pub is_serialization : Error → Bool
is_serialization err_serialization = true
is_serialization _ = false

-- BeginTx, Commit and Rollback, for the states of a database and of its transactions.
pub record BatchedQuerier (S T : Type 0) : Type 0 where
  pub begin_tx : S → Result T × S
  pub commit : T → S → Result (Unit {0}) × S
  pub rollback : T → S → S

-- txExecutorOptions; the delays only pass time.
pub record TxExecutorOptions : Type 0 where
  pub num_retries : ℕ
  pub retry_delay : ℤ

-- defaultTxExecutorOptions
unfoldable pub default_tx_executor_options : TxExecutorOptions
default_tx_executor_options = record { num_retries = 10; retry_delay = pos (50 * 1000000) }

-- WithTxRetries and WithTxRetryDelay
unfoldable pub with_tx_retries : ℕ → TxExecutorOptions → TxExecutorOptions
with_tx_retries n o = record o { num_retries = n }

unfoldable pub with_tx_retry_delay : ℤ → TxExecutorOptions → TxExecutorOptions
with_tx_retry_delay d o = record o { retry_delay = d }

-- The options of NewTransactionExecutor, applied in their order
unfoldable pub executor_options :
    List (TxExecutorOptions → TxExecutorOptions) → TxExecutorOptions → TxExecutorOptions
executor_options [] o = o
executor_options (f ∷ fs) o = executor_options fs (f o)

module _ {S T A : Type 0} (codes : SqlCodes) (db : BatchedQuerier S T) where
  -- The end of an attempt whose body succeeded; a failed commit is followed by the deferred
  -- rollback.
  unfoldable pub finish : A → T → S → Result A × S
  finish a t st =
      let (r, st') = db.commit t st in
      elim r [ ok u ↦ (ok a, st') | err e ↦ (err (map_sql_error codes e), db.rollback t st') ]

  -- The loop of ExecTx, for as many attempts as are left; a rollback of a transaction that is
  -- closed does nothing, and those that are deferred are left out.
  unfoldable pub attempts : (T → Result A × T) → ℕ → S → Result A × S
  unfolding finish
  attempts body zero st = (err err_retries_exceeded, st)
  attempts body (suc n) st =
      let (begun, st') = db.begin_tx st in
      elim begun [
        | err e ↦ (err e, st')
        | ok t ↦
            let (r, t') = body t in
            elim r [
              | ok a ↦ finish a t' st'
              | err e ↦ elim (is_serialization (map_sql_error codes e)) [
                | true ↦ attempts body n (db.rollback t' st')
                | false ↦ (err (map_sql_error codes e), db.rollback t' st')
              ]
            ]
      ]

  -- ExecTx
  unfoldable pub exec_tx : TxExecutorOptions → (T → Result A × T) → S → Result A × S
  unfolding attempts
  exec_tx opts body st = attempts body opts.num_retries st
