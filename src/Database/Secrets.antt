-- ===== src/Database/Secrets.antt =====
-- aperturedb/secrets.go: the secret store over a table of an SQL database, which is a parameter.
use aperture.Prelude.{
  ◌-◌, ◌++◌, Bytes, take, length, replicate, err_no_rows, err_secret_not_found, Result, ok, err,
  ◌>>=◌, ℤ,
}
use aperture.Go.Time.{Time}
use aperture.L402.Identifier.{secret_size}
use aperture.Mint.Store.{SecretStore}
use aperture.Database.{SqlCodes, BatchedQuerier, TxExecutorOptions, exec_tx}

-- NewSecret, the parameters of an insertion
pub record NewSecret : Type 0 where
  pub hash : Bytes
  pub secret : Bytes
  pub created_at : Time

-- SecretsDB: an insertion answers with the id of its row, a deletion with the number of rows.
pub record SecretsDb (T : Type 0) : Type 0 where
  pub insert_secret : T → NewSecret → Result ℤ × T
  pub get_secret_by_hash : T → Bytes → Result Bytes
  pub delete_secret_by_hash : T → Bytes → Result ℤ × T

-- A call's answer, of which only the error is of interest.
abbrev pub done : {T : Type 0} → Result ℤ × T → Result (Unit {0}) × T
done (r, t) = (r >>= (λ n. ok tt), t)

-- copy(secret[:], row), into an array of 32 zeros
unfoldable pub copy_secret : Bytes → Bytes
copy_secret row = take secret_size row ++ replicate (secret_size - length row) 0

-- What GetSecret makes of the row
unfoldable pub read_row : Result Bytes → Result Bytes
unfolding copy_secret
read_row (err err_no_rows) = err err_secret_not_found
read_row (err e) = err e
read_row (ok row) = ok (copy_secret row)

module _ {S T : Type 0} (codes : SqlCodes) (db : BatchedQuerier S T) (table : SecretsDb T)
    (opts : TxExecutorOptions) where
  -- NewSecret, given what rand.Read puts into the secret, and the time
  unfoldable pub new_secret : Result Bytes → Time → S → Bytes → Result Bytes × S
  new_secret (err e) now st hash = (err e, st)
  new_secret (ok secret) now st hash =
      let (r, st') =
        exec_tx codes db opts
          (λ t.
            done
              (table.insert_secret t (record { hash = hash; secret = secret; created_at = now })))
          st in
      (r >>= (λ u. ok secret), st')

  -- GetSecret
  unfoldable pub get_secret : S → Bytes → Result Bytes × S
  unfolding read_row
  get_secret st hash =
      exec_tx codes db opts (λ t. (read_row (table.get_secret_by_hash t hash), t)) st

  -- RevokeSecret: the number of rows is only logged.
  unfoldable pub revoke_secret : S → Bytes → Result (Unit {0}) × S
  revoke_secret st hash = exec_tx codes db opts (λ t. done (table.delete_secret_by_hash t hash)) st

  -- NewSecretsStore, where nothing sees the state after a read.
  abbrev pub sql_store : Result Bytes → Time → SecretStore S
  sql_store random now = record {
    new_secret = new_secret random now;
    get_secret = λ st hash. (get_secret st hash).0;
    revoke_secret = revoke_secret;
  }
