-- ===== src/Onion/Sql.antt =====
-- aperturedb/onion.go: the store of the private key over a table of an SQL database, which is a
-- parameter.
use aperture.Prelude.{
  if◌then◌else◌, not, Bytes, bytes_eq, fail, err_no_rows, err_no_private_key, Result, ok, err,
}
use aperture.Go.Time.{Time}
use aperture.Database.{SqlCodes, BatchedQuerier, TxExecutorOptions, exec_tx}
use aperture.Onion.{OnionStore}

-- OnionDB, in a transaction
pub record OnionDb (T : Type 0) : Type 0 where
  pub upsert_onion : T → Bytes → Time → Result (Unit {0}) × T
  pub select_onion_private_key : T → Result Bytes
  pub delete_onion_private_key : T → Result (Unit {0}) × T

-- A wrapped error, of which only the text is kept.
abbrev pub as_text : {S : Type 0} → Result (Unit {0}) × S → Result (Unit {0}) × S
as_text (ok u, st) = (ok u, st)
as_text (err e, st) = (err fail, st)

-- What PrivateKey makes of the row
unfoldable pub read_key : Result Bytes → Result Bytes
read_key (err err_no_rows) = err err_no_private_key
read_key (err e) = err e
read_key (ok row) = ok row

module _ {S T : Type 0} (codes : SqlCodes) (db : BatchedQuerier S T) (table : OnionDb T)
    (opts : TxExecutorOptions) where
  -- The body of StorePrivateKey, given what is selected: a different key is an error.
  unfoldable pub store_body : Bytes → Time → Result Bytes → T → Result (Unit {0}) × T
  store_body key now (err err_no_rows) t = table.upsert_onion t key now
  store_body key now (err e) t = (err e, t)
  store_body key now (ok stored) t =
      if not (bytes_eq stored key) then (err fail, t) else table.upsert_onion t key now

  -- StorePrivateKey
  unfoldable pub store_private_key : Time → S → Bytes → Result (Unit {0}) × S
  unfolding store_body
  store_private_key now st key =
      as_text
        (exec_tx codes db opts (λ t. store_body key now (table.select_onion_private_key t) t) st)

  -- PrivateKey: the selection does not go through the transaction, but is another call of the
  -- database, whose answer is given.
  unfoldable pub private_key : (S → Result Bytes) → S → Result Bytes × S
  unfolding read_key
  private_key direct st = exec_tx codes db opts (λ t. (read_key (direct st), t)) st

  -- DeletePrivateKey
  unfoldable pub delete_private_key : S → Result (Unit {0}) × S
  delete_private_key st = as_text (exec_tx codes db opts table.delete_onion_private_key st)

  -- NewOnionStore, where nothing sees the state after a read.
  abbrev pub sql_onion_store : (S → Result Bytes) → Time → OnionStore S
  sql_onion_store direct now = record {
    store_private_key = store_private_key now;
    private_key = λ st. (private_key direct st).0;
    delete_private_key = delete_private_key;
  }
