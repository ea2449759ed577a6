-- ===== src/Database/Kept.antt =====
-- The secret store of aperturedb/secrets.go keeps secrets as the mint expects.
use aperture.Prelude.{
  >>=-eq-ok, subst, ℕ, ◌-◌, ◌≤◌, ◌≡◌, ◌≢◌, ◌∙◌, sym, ap, refl, Bytes, take, take-le, length,
  replicate, Option, none, some, or_err, err_no_rows, err_secret_not_found, Error, Result, ok, err,
  ℤ, arith,
}
use mathlib.Core.List.{append-nil}
use aperture.Go.Time.{Time}
use aperture.L402.Identifier.{secret_size}
use aperture.Mint.Store.{IsSecretStore}
use aperture.Database.{SqlCodes, BatchedQuerier, TxExecutorOptions, exec_tx, map_sql_error}
use aperture.Database.Atomic.{
  IsReadable, exec_tx-read, IsFinal, IsTransactional, IsAtomic, exec_tx-IsAtomic,
}
use aperture.Database.Secrets.{
  NewSecret, SecretsDb, done, copy_secret, read_row, new_secret, get_secret, revoke_secret,
  sql_store,
}

-- The table, as the secret of each hash.
abbrev pub Secrets : Type 0
Secrets = Bytes → Option Bytes

-- An insertion that succeeds sets the secret of its hash, a deletion removes it, and both leave
-- the other hashes alone; a selection finds what is there.
pub record IsSecretsDb {T : Type 0} (table : SecretsDb T) (tx_view : T → Secrets) : Type 0 where
  pub inserted :
      (t : T) (p : NewSecret) (n : ℤ)
      → (table.insert_secret t p).0 ≡ ok n
      → tx_view (table.insert_secret t p).1 p.hash ≡ some p.secret
  pub inserted_ne :
      (t : T) (p : NewSecret) (n : ℤ) (other : Bytes)
      → (table.insert_secret t p).0 ≡ ok n
      → other ≢ p.hash
      → tx_view (table.insert_secret t p).1 other ≡ tx_view t other
  pub deleted :
      (t : T) (hash : Bytes) (n : ℤ)
      → (table.delete_secret_by_hash t hash).0 ≡ ok n
      → tx_view (table.delete_secret_by_hash t hash).1 hash ≡ none
  pub deleted_ne :
      (t : T) (hash : Bytes) (n : ℤ) (other : Bytes)
      → (table.delete_secret_by_hash t hash).0 ≡ ok n
      → other ≢ hash
      → tx_view (table.delete_secret_by_hash t hash).1 other ≡ tx_view t other
  pub selected :
      (t : T) (hash : Bytes) → table.get_secret_by_hash t hash ≡ or_err (tx_view t hash) err_no_rows

copy_secret-whole : (secret : Bytes) → length secret ≡ secret_size → copy_secret secret ≡ secret
unfolding copy_secret
copy_secret-whole secret h =
    let cut : take secret_size secret ≡ secret = take-le secret_size secret (omega (arith, h)) in
    let full : secret_size - length secret ≡ 0 = omega (arith, h) in
    cc (cut, ap (λ n. replicate {A = ℕ} n 0) full, append-nil secret)

-- What GetSecret answers for what the table holds.
abbrev found : Option Bytes → Result Bytes
found none = err err_secret_not_found
found (some row) = ok (copy_secret row)

found-IsFinal :
    (codes : SqlCodes) (o : Option Bytes) (e : Error) → found o ≡ err e → IsFinal codes e
unfolding map_sql_error
found-IsFinal codes none e h =
    let same : err_secret_not_found ≡ e = cc h in subst (IsFinal codes) same (refl, refl)
found-IsFinal codes (some row) e h = absurd (cc h)

read_row-found : (o : Option Bytes) → read_row (or_err o err_no_rows) ≡ found o
unfolding read_row
read_row-found none = refl
read_row-found (some row) = refl

module _ {S T : Type 0} (codes : SqlCodes) (db : BatchedQuerier S T) (view : S → Secrets)
    (tx_view : T → Secrets) (laws : IsTransactional db view tx_view)
    (readable : IsReadable db view tx_view) (table : SecretsDb T)
    (keeps : IsSecretsDb table tx_view) (opts : TxExecutorOptions)
    (some_try : 1 ≤ opts.num_retries) where
  get_secret-found :
      (st : S) (hash : Bytes) → (get_secret codes db table opts st hash).0 ≡ found (view st hash)
  unfolding get_secret
  get_secret-found st hash =
      exec_tx-read codes db view tx_view laws readable (λ v. found (v hash))
        (λ v e h. found-IsFinal codes (v hash) e h)
        (λ t. (read_row (table.get_secret_by_hash t hash), t))
        (λ t.
          ap (λ r. (r, t)) (ap read_row (keeps.selected t hash) ∙ read_row-found (tx_view t hash)))
        opts st some_try

  -- Reads answer the same when what is committed for the hash is the same.
  get_secret-same :
      (st st' : S) (hash : Bytes)
      → view st hash ≡ view st' hash
      → (get_secret codes db table opts st hash).0 ≡ (get_secret codes db table opts st' hash).0
  get_secret-same st st' hash h =
      get_secret-found st hash ∙ (ap found h ∙ sym (get_secret-found st' hash))

  -- What a transaction that answers with nothing but its error has done to the table.
  done-ok : (p : Result ℤ × T) (t : T) → done p ≡ (ok tt, t) → (n : ℤ) × (p.0 ≡ ok n) × (p.1 ≡ t)
  done-ok (ok n, t') t h = (n, refl, cc h)
  done-ok (err e, t') t h = absurd (cc h)

  module _ (act : T → Result ℤ × T) (hash : Bytes) (wanted : Option Bytes)
      (here : (t : T) (n : ℤ) → (act t).0 ≡ ok n → tx_view (act t).1 hash ≡ wanted)
      (elsewhere : (t : T) (n : ℤ) (other : Bytes)
        → (act t).0 ≡ ok n
        → other ≢ hash
        → tx_view (act t).1 other ≡ tx_view t other) where
    act-here :
        (p : Result (Unit {0}) × S) (st : S)
        → IsAtomic codes db view tx_view (λ t. done (act t)) (view st) p
        → p.0 ≡ ok tt
        → view p.1 hash ≡ wanted
    act-here (ok u, st') st c h =
        let (n, ran, left) = done-ok (act c.opened) c.closed c.ran in
        ap (λ v. v hash) c.written ∙ (ap (λ t. tx_view t hash) (sym left) ∙ here c.opened n ran)
    act-here (err e, st') st c h = absurd (cc h)

    act-elsewhere :
        (p : Result (Unit {0}) × S) (st : S) (other : Bytes)
        → IsAtomic codes db view tx_view (λ t. done (act t)) (view st) p
        → other ≢ hash
        → view p.1 other ≡ view st other
    act-elsewhere (ok u, st') st other c h =
        let (n, ran, left) = done-ok (act c.opened) c.closed c.ran in
        ap (λ v. v other) c.written
        ∙ (ap (λ t. tx_view t other) (sym left)
            ∙ (elsewhere c.opened n other ran h ∙ ap (λ v. v other) c.read))
    act-elsewhere (err e, st') st other c h = ap (λ v. v other) c

  module _ (key secret : Bytes) (now : Time) (st : S) where
    abbrev row : NewSecret
    row = record { hash = key; secret = secret; created_at = now }

    inserted-view :
        let p = exec_tx codes db opts (λ t. done (table.insert_secret t row)) st in
        p.0 ≡ ok tt → view p.1 key ≡ some secret
    inserted-view =
        act-here (λ t. table.insert_secret t row) key (some secret) (λ t n. keeps.inserted t row n)
          (λ t n other. keeps.inserted_ne t row n other)
          (exec_tx codes db opts (λ t. done (table.insert_secret t row)) st) st
          (exec_tx-IsAtomic codes db view tx_view (λ t. done (table.insert_secret t row)) laws opts
            st)

    inserted-view_ne :
        (other : Bytes)
        → other ≢ key
        → view (exec_tx codes db opts (λ t. done (table.insert_secret t row)) st).1 other
          ≡ view st other
    inserted-view_ne other =
        act-elsewhere (λ t. table.insert_secret t row) key (some secret)
          (λ t n. keeps.inserted t row n) (λ t n other. keeps.inserted_ne t row n other)
          (exec_tx codes db opts (λ t. done (table.insert_secret t row)) st) st other
          (exec_tx-IsAtomic codes db view tx_view (λ t. done (table.insert_secret t row)) laws opts
            st)

  module _ (key : Bytes) (st : S) where
    deleted-view :
        (revoke_secret codes db table opts st key).0 ≡ ok tt
        → view (revoke_secret codes db table opts st key).1 key ≡ none
    unfolding revoke_secret
    deleted-view =
        act-here (λ t. table.delete_secret_by_hash t key) key none (λ t n. keeps.deleted t key n)
          (λ t n other. keeps.deleted_ne t key n other)
          (exec_tx codes db opts (λ t. done (table.delete_secret_by_hash t key)) st) st
          (exec_tx-IsAtomic codes db view tx_view (λ t. done (table.delete_secret_by_hash t key))
            laws opts st)

    deleted-view_ne :
        (other : Bytes)
        → other ≢ key
        → view (revoke_secret codes db table opts st key).1 other ≡ view st other
    unfolding revoke_secret
    deleted-view_ne other =
        act-elsewhere (λ t. table.delete_secret_by_hash t key) key none
          (λ t n. keeps.deleted t key n) (λ t n other. keeps.deleted_ne t key n other)
          (exec_tx codes db opts (λ t. done (table.delete_secret_by_hash t key)) st) st other
          (exec_tx-IsAtomic codes db view tx_view (λ t. done (table.delete_secret_by_hash t key))
            laws opts st)

  -- Over a database that keeps its promises and a table of hashes, the secret store meets the laws
  -- that the mint relies on, for each secret of 32 bytes that the random source gives: a new secret
  -- is found again, a revoked one is not, and the secrets of other hashes stay as they are, also
  -- when a transaction fails.
  pub sql_store-IsSecretStore :
      (secret : Bytes) (now : Time)
      → length secret ≡ secret_size
      → IsSecretStore (sql_store codes db table opts (ok secret) now)
  unfolding new_secret
  sql_store-IsSecretStore secret now size = record {
    get-new = λ st key got e.
        let (u, stored, same) = >>=-eq-ok _ (λ u. ok secret) e in
        get_secret-found _ key
        ∙ (ap found (inserted-view key secret now st stored)
            ∙ (ap ok (copy_secret-whole secret size) ∙ same));
    get-new_ne =
        λ st key other n. get_secret-same _ st other (inserted-view_ne key secret now st other n);
    get-revoke = λ st key e. get_secret-found _ key ∙ ap found (deleted-view key st e);
    get-revoke_ne = λ st key other n. get_secret-same _ st other (deleted-view_ne key st other n);
  }
