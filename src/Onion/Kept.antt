-- ===== src/Onion/Kept.antt =====
-- Both stores of onion_store.go and aperturedb/onion.go keep the private key of an onion service.
use aperture.Prelude.{
  ◌≤◌, ◌≡◌, ◌∙◌, sym, ap, subst, refl, true, List, [], ◌∷◌, List-cases, inl, inr, Bytes, bytes_eq,
  bytes_eq_iff, Bool-cases, Option, none, some, or_err, err_no_rows, err_no_private_key, Error,
  Result, ok, err, ◌>>=◌, arith,
}
use aperture.Go.Time.{Time}
use aperture.EtcdSecrets.{EtcdClient, IsEtcdClient}
use aperture.Database.{SqlCodes, BatchedQuerier, TxExecutorOptions, exec_tx, map_sql_error}
use aperture.Database.Atomic.{
  IsTransactional, IsReadable, IsAtomic, IsFinal, exec_tx-IsAtomic, exec_tx-read,
}
use aperture.Onion.{IsOnionStore, etcd_onion_store, onion_path, first_key}
use aperture.Onion.Sql.{
  OnionDb, as_text, read_key, store_body, store_private_key, private_key, delete_private_key,
  sql_onion_store,
}

-- Over an etcd client that keeps its keys, the store finds the key that was stored last, and none
-- after a deletion.
pub etcd_onion_store-IsOnionStore :
    {S : Type 0} (client : EtcdClient S)
    → IsEtcdClient client
    → IsOnionStore (etcd_onion_store client)
unfolding etcd_onion_store first_key
etcd_onion_store-IsOnionStore client laws = record {
  private_key-store = λ st key e. ap (λ r. r >>= first_key) (laws.get-put st onion_path key e);
  private_key-delete = λ st e. ap (λ r. r >>= first_key) (laws.get-delete st onion_path e);
}

abbrev pub first : List Bytes → Option Bytes
first [] = none
first (k ∷ ks) = some k

-- The table, as the keys in it: an insertion into an empty table leaves the key alone in it, one
-- of the first key changes nothing, a deletion empties it, and a selection finds the first key.
pub record IsOnionDb {T : Type 0} (table : OnionDb T) (tx_view : T → List Bytes) : Type 0 where
  pub selected : (t : T) → table.select_onion_private_key t ≡ or_err (first (tx_view t)) err_no_rows
  pub upserted :
      (t : T) (key : Bytes) (now : Time)
      → tx_view t ≡ []
      → (table.upsert_onion t key now).0 ≡ ok tt
      → tx_view (table.upsert_onion t key now).1 ≡ key ∷ []
  pub upserted_same :
      (t : T) (key : Bytes) (ks : List Bytes) (now : Time)
      → tx_view t ≡ key ∷ ks
      → (table.upsert_onion t key now).0 ≡ ok tt
      → tx_view (table.upsert_onion t key now).1 ≡ key ∷ ks
  pub deleted :
      (t : T)
      → (table.delete_onion_private_key t).0 ≡ ok tt
      → tx_view (table.delete_onion_private_key t).1 ≡ []

as_text-ok : {S : Type 0} (p : Result (Unit {0}) × S) → (as_text p).0 ≡ ok tt → p.0 ≡ ok tt
as_text-ok (ok u, st) h = refl
as_text-ok (err e, st) h = absurd (cc h)

as_text-state : {S : Type 0} (p : Result (Unit {0}) × S) → (as_text p).1 ≡ p.1
as_text-state (ok u, st) = refl
as_text-state (err e, st) = refl

read_first : (o : Option Bytes) → read_key (or_err o err_no_rows) ≡ or_err o err_no_private_key
unfolding read_key
read_first none = refl
read_first (some k) = refl

first-IsFinal :
    (codes : SqlCodes) (o : Option Bytes) (e : Error)
    → or_err o err_no_private_key ≡ err e
    → IsFinal codes e
unfolding map_sql_error
first-IsFinal codes none e h =
    let same : err_no_private_key ≡ e = cc h in subst (IsFinal codes) same (refl, refl)
first-IsFinal codes (some k) e h = absurd (cc h)

module _ {S T : Type 0} (codes : SqlCodes) (db : BatchedQuerier S T) (view : S → List Bytes)
    (tx_view : T → List Bytes) (laws : IsTransactional db view tx_view) (table : OnionDb T)
    (keeps : IsOnionDb table tx_view) (opts : TxExecutorOptions) where
  body : Bytes → Time → T → Result (Unit {0}) × T
  body key now t = store_body codes db table opts key now (table.select_onion_private_key t) t

  only_same :
      (key k : Bytes) (now : Time) (t t' : T)
      → store_body codes db table opts key now (ok k) t ≡ (ok tt, t')
      → bytes_eq k key ≡ true
  unfolding store_body
  only_same key k now t t' h = elim (Bool-cases (bytes_eq k key)) [
    | inl y ↦ y
    | inr n ↦ absurd (ground (arith, n, h))
  ]

  written :
      (key k : Bytes) (now : Time) (t : T)
      → bytes_eq k key ≡ true
      → table.upsert_onion t key now ≡ store_body codes db table opts key now (ok k) t
  unfolding store_body
  written key k now t h = rw (h, store_body) refl

  -- What a body that succeeds leaves of an empty table, and of one with a key.
  body-empty :
      (key : Bytes) (now : Time) (t t' : T)
      → tx_view t ≡ []
      → body key now t ≡ (ok tt, t')
      → tx_view t' ≡ key ∷ []
  unfolding body store_body
  body-empty key now t t' h ran =
      let read : table.select_onion_private_key t ≡ err err_no_rows =
        keeps.selected t ∙ ap (λ ks. or_err (first ks) err_no_rows) h in
      let wrote : table.upsert_onion t key now ≡ (ok tt, t') =
        ap (λ r. store_body codes db table opts key now r t) (sym read) ∙ ran in
      ap (λ p. tx_view p.1) (sym wrote) ∙ keeps.upserted t key now h (ap (λ p. p.0) wrote)

  body-some :
      (key k : Bytes) (ks : List Bytes) (now : Time) (t t' : T)
      → tx_view t ≡ k ∷ ks
      → body key now t ≡ (ok tt, t')
      → (key ≡ k) × (tx_view t' ≡ k ∷ ks)
  unfolding body store_body
  body-some key k ks now t t' h ran =
      let read : table.select_onion_private_key t ≡ ok k =
        keeps.selected t ∙ ap (λ ks. or_err (first ks) err_no_rows) h in
      let same_key : bytes_eq k key ≡ true =
        only_same key k now t t'
          (ap (λ r. store_body codes db table opts key now r t) (sym read) ∙ ran) in
      let same : k ≡ key = (bytes_eq_iff k key).0 same_key in
      let wrote : table.upsert_onion t key now ≡ (ok tt, t') =
        written key k now t same_key
        ∙ (ap (λ r. store_body codes db table opts key now r t) (sym read) ∙ ran) in
      (
        sym same,
        ap (λ p. tx_view p.1) (sym wrote)
            ∙ (keeps.upserted_same t key ks now (h ∙ ap (λ x. x ∷ ks) same) (ap (λ p. p.0) wrote)
                ∙ ap (λ x. x ∷ ks) (sym same)),
      )

  -- A key is only stored when no key or the same one is there: a stored key is never replaced,
  -- whatever the call answers, and a call that succeeds was for this key.
  pub store_private_key-kept :
      (st : S) (key k : Bytes) (ks : List Bytes) (now : Time)
      → view st ≡ k ∷ ks
      → (view (store_private_key codes db table opts now st key).1 ≡ k ∷ ks)
        × ((store_private_key codes db table opts now st key).0 ≡ ok tt → key ≡ k)
  unfolding store_private_key body
  store_private_key-kept st key k ks now h =
      kept_by (exec_tx codes db opts (body key now) st)
        (exec_tx-IsAtomic codes db view tx_view (body key now) laws opts st)
    where
      kept_by :
          (p : Result (Unit {0}) × S)
          → IsAtomic codes db view tx_view (body key now) (view st) p
          → (view (as_text p).1 ≡ k ∷ ks) × ((as_text p).0 ≡ ok tt → key ≡ k)
      kept_by (err e, st') c = (c ∙ h, λ f. absurd (cc f))
      kept_by (ok u, st') c =
          let (same, left) = body-some key k ks now c.opened c.closed (c.read ∙ h) c.ran in
          (c.written ∙ left, λ f. same)

  -- After a success, the key is the first in the table.
  store-first :
      (st : S) (key : Bytes) (now : Time)
      → (store_private_key codes db table opts now st key).0 ≡ ok tt
      → first (view (store_private_key codes db table opts now st key).1) ≡ some key
  unfolding store_private_key body
  store-first st key now =
      first_by (exec_tx codes db opts (body key now) st)
        (exec_tx-IsAtomic codes db view tx_view (body key now) laws opts st)
    where
      first_by :
          (p : Result (Unit {0}) × S)
          → IsAtomic codes db view tx_view (body key now) (view st) p
          → (as_text p).0 ≡ ok tt
          → first (view (as_text p).1) ≡ some key
      first_by (err e, st') c f = absurd (cc f)
      first_by (ok u, st') c f = elim (List-cases (tx_view c.opened)) [
        | inl n ↦ ap first (c.written ∙ body-empty key now c.opened c.closed n c.ran)
        | inr (k, ks, e) ↦
            let (same, left) = body-some key k ks now c.opened c.closed e c.ran in
            ap first (c.written ∙ left) ∙ ap some (sym same)
      ]

  delete-empty :
      (st : S)
      → (delete_private_key codes db table opts st).0 ≡ ok tt
      → view (delete_private_key codes db table opts st).1 ≡ []
  unfolding delete_private_key
  delete-empty st =
      empty_by (exec_tx codes db opts table.delete_onion_private_key st)
        (exec_tx-IsAtomic codes db view tx_view table.delete_onion_private_key laws opts st)
    where
      empty_by :
          (p : Result (Unit {0}) × S)
          → IsAtomic codes db view tx_view table.delete_onion_private_key (view st) p
          → (as_text p).0 ≡ ok tt
          → view (as_text p).1 ≡ []
      empty_by (err e, st') c f = absurd (cc f)
      empty_by (ok u, st') c f =
          c.written
          ∙ (ap (λ p. tx_view p.1) (sym c.ran) ∙ keeps.deleted c.opened (ap (λ p. p.0) c.ran))

  module _ (readable : IsReadable db view tx_view) (some_try : 1 ≤ opts.num_retries)
      (direct : S → Result Bytes)
      (seen : (st : S) → direct st ≡ or_err (first (view st)) err_no_rows) where
    private_key-first :
        (st : S)
        → (private_key codes db table opts direct st).0
          ≡ or_err (first (view st)) err_no_private_key
    unfolding private_key
    private_key-first st =
        exec_tx-read codes db view tx_view laws readable (λ v. read_key (direct st))
          (λ v e h. final e h) (λ t. (read_key (direct st), t)) (λ t. refl) opts st some_try
        ∙ read
      where
        read : read_key (direct st) ≡ or_err (first (view st)) err_no_private_key
        read = ap read_key (seen st) ∙ read_first (first (view st))

        final : (e : Error) → read_key (direct st) ≡ err e → IsFinal codes e
        final e h = first-IsFinal codes (first (view st)) e (sym read ∙ h)

    -- Over a database that keeps its promises, the store finds the key that was stored last, and
    -- none after a deletion.
    pub sql_onion_store-IsOnionStore :
        (now : Time) → IsOnionStore (sql_onion_store codes db table opts direct now)
    sql_onion_store-IsOnionStore now = record {
      private_key-store = λ st key e.
          private_key-first _ ∙ ap (λ o. or_err o err_no_private_key) (store-first st key now e);
      private_key-delete = λ st e.
          private_key-first _ ∙ ap (λ ks. or_err (first ks) err_no_private_key) (delete-empty st e);
    }
