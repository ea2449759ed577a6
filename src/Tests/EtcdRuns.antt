-- ===== src/Tests/EtcdRuns.antt =====
-- A key-value store as an etcd client, and an instance of the theorem about the secret store.
use aperture.Prelude.{
  refl, bytes_eq_iff, arith, List, [], ◌∷◌, Bytes, Option, none, some, ok, replicate,
}
use aperture.Go.Maps.{lookup, put, delete, lookup-put, lookup-delete}
use aperture.Mint.Store.{IsSecretStore}
use aperture.EtcdSecrets.{EtcdClient, IsEtcdClient, etcd_store}
use aperture.EtcdSecrets.Kept.{etcd_store-IsSecretStore}

abbrev Cluster : Type 0
Cluster = List (Bytes × Bytes)

abbrev found : Option Bytes → List Bytes
found none = []
found (some v) = v ∷ []

abbrev cluster : EtcdClient Cluster
cluster = record {
  put = λ st key value. (ok tt, put key value st);
  get = λ st key. ok (found (lookup key st));
  delete = λ st key. (ok tt, delete key st);
}

cluster-IsEtcdClient : IsEtcdClient cluster
cluster-IsEtcdClient = record {
  get-put = λ st key value e. ground (arith, lookup-put key key value st, bytes_eq_iff key key);
  get-put_ne =
      λ st key other value n. ground (arith, lookup-put key other value st, bytes_eq_iff key other);
  get-delete = λ st key e. ground (arith, lookup-delete key key st, bytes_eq_iff key key);
  get-delete_ne =
      λ st key other n. ground (arith, lookup-delete key other st, bytes_eq_iff key other);
}

etcd_store-IsSecretStore_example : IsSecretStore (etcd_store cluster (ok (replicate 32 9)))
etcd_store-IsSecretStore_example =
    etcd_store-IsSecretStore cluster cluster-IsEtcdClient (replicate 32 9) refl
