-- ===== src/Tests/DatabaseRuns.antt =====
-- A database whose transactions work on a copy, and instances of the theorems about the stores on it.
use aperture.Prelude.{
  false, fail, some, none, err_retries_exceeded, suc, ℕ, ◌≡◌, refl, ap, if◌then◌else◌, List, [],
  ◌∷◌, Bytes, codes, replicate, or_err, err_no_rows, postgres_error, Result, ok, err, pos,
  bytes_eq_iff, bytes_eq_refl, bytes_eq, arith,
}
use aperture.Go.Time.{Time}
use aperture.Go.Maps.{lookup, put, delete, lookup-put, lookup-delete}
use aperture.Mint.Store.{IsSecretStore}
use aperture.Database.{
  finish, SqlCodes, BatchedQuerier, default_tx_executor_options, with_tx_retries, exec_tx, attempts,
  map_sql_error,
}
use aperture.Database.Atomic.{IsTransactional, IsReadable, IsAtomic, exec_tx-IsAtomic}
use aperture.Database.Secrets.{SecretsDb, sql_store}
use aperture.Database.Kept.{Secrets, IsSecretsDb, sql_store-IsSecretStore}
use aperture.Onion.Sql.{OnionDb, store_private_key}
use aperture.Onion.Kept.{IsOnionDb, first, store_private_key-kept}
use aperture.LncSessions.{
  Mailbox, new_session, read_session, open_session, Btcec, Session, LncSession, LncSessionsDb,
  truncate_micro, add_session, get_session,
}
use aperture.LncSessions.Reopened.{open_session-again}
use aperture.Go.Strings.{split}
use aperture.LncSessions.Found.{Sessions, IsLncSessionsDb, IsBtcec, get_session-add_session}

abbrev sql_codes : SqlCodes
sql_codes = record {
  sqlite_constraint_unique = 2067;
  unique_violation = codes "23505";
  serialization_failure = codes "40001";
}

abbrev copies : {D : Type 0} → BatchedQuerier D D
copies = record { begin_tx = λ st. (ok st, st); commit = λ t st. (ok tt, t); rollback = λ t st. st }

opened-same :
    {D V : Type 0} (view : D → V) (d t : D) → ◌≡◌ {A = Result D} (ok d) (ok t) → view t ≡ view d
opened-same view d t e = ap view (cc e)

copies-IsTransactional : {D V : Type 0} (view : D → V) → IsTransactional copies view view
copies-IsTransactional view = record {
  begun = λ st t e. opened-same view st t e;
  begin_kept = λ st. refl;
  committed = λ t st e. refl;
  commit_kept = λ t st f e. absurd (cc e);
  rollback_kept = λ t st. refl;
}

copies-IsReadable : {D V : Type 0} (view : D → V) → IsReadable copies view view
copies-IsReadable view = record { opens = λ st. (st, refl); closes = λ t st e. refl }

abbrev Table : Type 0
Table = List (Bytes × Bytes)

abbrev table : SecretsDb Table
table = record {
  insert_secret = λ t p. (ok (pos 1), put p.hash p.secret t);
  get_secret_by_hash = λ t hash. or_err (lookup hash t) err_no_rows;
  delete_secret_by_hash = λ t hash. (ok (pos 1), delete hash t);
}

abbrev secrets_of : Table → Secrets
secrets_of t hash = lookup hash t

table-IsSecretsDb : IsSecretsDb table secrets_of
table-IsSecretsDb = record {
  inserted = λ t p n e. ground (arith, lookup-put p.hash p.hash p.secret t, bytes_eq_refl p.hash);
  inserted_ne = λ t p n other e k.
      ground (arith, lookup-put p.hash other p.secret t, bytes_eq_iff p.hash other);
  deleted = λ t hash n e. ground (arith, lookup-delete hash hash t, bytes_eq_refl hash);
  deleted_ne =
      λ t hash n other e k. ground (arith, lookup-delete hash other t, bytes_eq_iff hash other);
  selected = λ t hash. refl;
}

abbrev now : Time
now = record { sec = pos 0; nsec = 0 }

sql_store-IsSecretStore_example :
    IsSecretStore
      (sql_store sql_codes copies table default_tx_executor_options (ok (replicate 32 9)) now)
unfolding default_tx_executor_options
sql_store-IsSecretStore_example =
    sql_store-IsSecretStore sql_codes copies secrets_of secrets_of
      (copies-IsTransactional secrets_of) (copies-IsReadable secrets_of) table table-IsSecretsDb
      default_tx_executor_options (omega arith) (replicate 32 9) now refl

-- A body that can never be serialized.
abbrev never : ℕ → Result ℕ × ℕ
never t = (err (postgres_error (codes "40001")), t)

retries_run :
    exec_tx sql_codes copies (with_tx_retries 3 default_tx_executor_options) never 7
    ≡ (err err_retries_exceeded, 7)
unfolding exec_tx attempts map_sql_error with_tx_retries default_tx_executor_options bytes_eq
retries_run = refl

abbrev add_one : ℕ → Result ℕ × ℕ
add_one t = (ok t, suc t)

exec_tx-IsAtomic_example :
    IsAtomic sql_codes copies
      (λ n. n)
      (λ n. n)
      add_one
      7
      (exec_tx sql_codes copies default_tx_executor_options add_one 7)
exec_tx-IsAtomic_example =
    exec_tx-IsAtomic sql_codes copies (λ n. n) (λ n. n) add_one (copies-IsTransactional (λ n. n))
      default_tx_executor_options 7

abbrev upsert : Bytes → List Bytes → List Bytes
upsert key [] = key ∷ []
upsert key (k ∷ ks) = if bytes_eq k key then k ∷ ks else k ∷ upsert key ks

abbrev onions : OnionDb (List Bytes)
onions = record {
  upsert_onion = λ t key now. (ok tt, upsert key t);
  select_onion_private_key = λ t. or_err (first t) err_no_rows;
  delete_onion_private_key = λ t. (ok tt, []);
}

upsert-first :
    (t : List Bytes) (key : Bytes) (ks : List Bytes) → t ≡ key ∷ ks → upsert key t ≡ key ∷ ks
upsert-first [] key ks h = absurd (cc h)
upsert-first (k ∷ t) key ks h = ground (arith, h, bytes_eq_refl key)

onions-IsOnionDb : IsOnionDb onions (λ t. t)
onions-IsOnionDb = record {
  selected = λ t. refl;
  upserted = λ t key now h e. ap (upsert key) h;
  upserted_same = λ t key ks now h e. upsert-first t key ks h;
  deleted = λ t e. refl;
}

store_private_key-kept_example :
    ((store_private_key sql_codes copies onions default_tx_executor_options now
        (codes "old" ∷ [])
        (codes "new")).1
      ≡ codes "old" ∷ [])
    × ((store_private_key sql_codes copies onions default_tx_executor_options now
            (codes "old" ∷ [])
            (codes "new")).0
          ≡ ok tt
        → codes "new" ≡ codes "old")
store_private_key-kept_example =
    store_private_key-kept sql_codes copies (λ t. t) (λ t. t) (copies-IsTransactional (λ t. t))
      onions onions-IsOnionDb default_tx_executor_options (codes "old" ∷ []) (codes "new")
      (codes "old") [] now refl

abbrev plain_keys : Btcec
plain_keys = record {
  PrivateKey = Bytes;
  PublicKey = Bytes;
  serialize = λ k. k;
  priv_key_from_bytes = λ s. s;
  parse_pub_key = λ s. ok s;
}

plain_keys-IsBtcec : IsBtcec plain_keys sql_codes
plain_keys-IsBtcec = record { key_again = λ k. refl; parse_final = λ s e h. absurd (cc h) }

abbrev Rows : Type 0
Rows = List (Bytes × LncSession)

abbrev rows : LncSessionsDb Rows
rows = record {
  insert_session = λ t row. (ok tt, put row.passphrase_entropy row t);
  get_session = λ t entropy. or_err (lookup entropy t) err_no_rows;
  set_remote_pub_key = λ t entropy key. (err fail, t);
  set_expiry = λ t entropy expiry. (err fail, t);
}

abbrev rows_of : Rows → Sessions
rows_of t entropy = lookup entropy t

rows-IsLncSessionsDb : IsLncSessionsDb rows rows_of
rows-IsLncSessionsDb = record {
  inserted = λ t row h e. ground (
    arith,
    lookup-put row.passphrase_entropy row.passphrase_entropy row t,
    bytes_eq_refl row.passphrase_entropy,
  );
  inserted_ne = λ t row other e n. ground (
    arith,
    lookup-put row.passphrase_entropy other row t,
    bytes_eq_iff row.passphrase_entropy other,
  );
  selected = λ t entropy. refl;
}

abbrev session : Session plain_keys
session = record {
  passphrase_words = codes "a b";
  passphrase_entropy = codes "e";
  remote_static_pub_key = none;
  local_static_priv_key = some (codes "k");
  mailbox_addr = codes "m";
  created_at = none;
  expiry = none;
  dev_server = false;
}

abbrev at : Time
at = record { sec = pos 5; nsec = 2001 }

abbrev added : Session plain_keys
added = record session { created_at = some (record { sec = pos 5; nsec = 2000 }) }

get_session-add_session_example :
    ((get_session plain_keys sql_codes copies rows default_tx_executor_options
        (codes "e")
        (add_session plain_keys sql_codes copies rows default_tx_executor_options session at
          []).1).0
      ≡ ok (record added { remote_static_pub_key = none; expiry = none }))
    × ((get_session plain_keys sql_codes copies rows default_tx_executor_options []
          (add_session plain_keys sql_codes copies rows default_tx_executor_options session at
            []).1).0
        ≡ (get_session plain_keys sql_codes copies rows default_tx_executor_options [] []).0)
unfolding add_session exec_tx attempts finish default_tx_executor_options truncate_micro
get_session-add_session_example =
    get_session-add_session plain_keys sql_codes plain_keys-IsBtcec copies rows_of rows_of
      (copies-IsTransactional rows_of) (copies-IsReadable rows_of) rows rows-IsLncSessionsDb
      default_tx_executor_options (omega arith) session added at [] [] refl (λ h. absurd (cc h))

abbrev two_words : Mailbox
two_words = record { num_passphrase_words = 2; mnemonic_to_entropy = λ words. codes "e" }

abbrev fresh : Session plain_keys
fresh = record session { local_static_priv_key = none }

open_session-again_example :
    (open_session plain_keys sql_codes copies rows default_tx_executor_options fresh
      (ok (codes "other"))
      now
      (open_session plain_keys sql_codes copies rows default_tx_executor_options fresh
        (ok (codes "k"))
        at
        []).1).0
    ≡ ok added
unfolding open_session add_session get_session read_session new_session exec_tx attempts finish
    default_tx_executor_options truncate_micro map_sql_error split lookup
open_session-again_example =
    open_session-again plain_keys sql_codes plain_keys-IsBtcec copies rows_of rows_of
      (copies-IsTransactional rows_of) (copies-IsReadable rows_of) rows rows-IsLncSessionsDb
      default_tx_executor_options (omega arith) two_words (codes "a b") (codes "m") false fresh
      added (ok (codes "k")) (ok (codes "other")) at now [] refl refl
