-- ===== src/Onion.antt =====
-- onion_store.go: the store of the private key of an onion service, over an etcd cluster.
pub mod Sql
pub mod Kept
use aperture.Prelude.{
  ℕ, ◌≡◌, ◌≢◌, List, [], ◌∷◌, Bytes, codes, err_no_private_key, Result, ok, err, ◌>>=◌,
}
use aperture.Go.Strings.{join}
use aperture.EtcdSecrets.{EtcdClient, top_level_key, etcd_key_delimeter}

-- OnionStore of lnd's tor package
pub record OnionStore (S : Type 0) : Type 0 where
  pub store_private_key : S → Bytes → Result (Unit {0}) × S
  pub private_key : S → Result Bytes
  pub delete_private_key : S → Result (Unit {0}) × S

-- What lnd's Tor controller relies on: a key that is stored is found again, and after a deletion
-- there is none.
pub record IsOnionStore {S : Type 0} (store : OnionStore S) : Type 0 where
  pub private_key-store :
      (st : S) (key : Bytes)
      → (store.store_private_key st key).0 ≡ ok tt
      → store.private_key (store.store_private_key st key).1 ≡ ok key
  pub private_key-delete :
      (st : S)
      → (store.delete_private_key st).0 ≡ ok tt
      → store.private_key (store.delete_private_key st).1 ≡ err err_no_private_key

-- onionDir, onionV3Dir and onionPath
abbrev pub onion_dir : Bytes
onion_dir = codes "onion"

abbrev pub onion_v3_dir : Bytes
onion_v3_dir = codes "v3"

unfoldable pub onion_path : Bytes
onion_path = join etcd_key_delimeter (top_level_key ∷ onion_dir ∷ onion_v3_dir ∷ [])

-- The key among the values that Get returns
unfoldable pub first_key : List Bytes → Result Bytes
first_key [] = err err_no_private_key
first_key (v ∷ vs) = ok v

-- newOnionStore, with StorePrivateKey, PrivateKey and DeletePrivateKey
unfoldable pub etcd_onion_store : {S : Type 0} → EtcdClient S → OnionStore S
unfolding first_key
etcd_onion_store client = record {
  store_private_key = λ st key. client.put st onion_path key;
  private_key = λ st. client.get st onion_path >>= first_key;
  delete_private_key = λ st. client.delete st onion_path;
}
