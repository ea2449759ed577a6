-- ===== src/EtcdSecrets.antt =====
-- secrets.go: the secret store over an etcd cluster. The client of etcd is a parameter.
pub mod Kept
use aperture.Prelude.{
  ℕ, ◌≡◌, ◌≢◌, List, [], ◌∷◌, if◌then◌else◌, Bytes, codes, length, ◌==◌, Result, ok, err, ◌>>=◌,
  fail, err_secret_not_found,
}
use aperture.Go.Hex.{hex_encode}
use aperture.Go.Strings.{join}
use aperture.L402.Identifier.{secret_size}
use aperture.Mint.Store.{SecretStore}

-- The calls of the etcd client: the values that Get returns, and the cluster after Put and Delete.
pub record EtcdClient (S : Type 0) : Type 0 where
  pub put : S → Bytes → Bytes → Result (Unit {0}) × S
  pub get : S → Bytes → Result (List Bytes)
  pub delete : S → Bytes → Result (Unit {0}) × S

-- A key holds what was put last, nothing after it is deleted, and keys do not disturb each other.
pub record IsEtcdClient {S : Type 0} (client : EtcdClient S) : Type 0 where
  pub get-put :
      (st : S) (key value : Bytes)
      → (client.put st key value).0 ≡ ok tt
      → client.get (client.put st key value).1 key ≡ ok (value ∷ [])
  pub get-put_ne :
      (st : S) (key other value : Bytes)
      → other ≢ key
      → client.get (client.put st key value).1 other ≡ client.get st other
  pub get-delete :
      (st : S) (key : Bytes)
      → (client.delete st key).0 ≡ ok tt
      → client.get (client.delete st key).1 key ≡ ok []
  pub get-delete_ne :
      (st : S) (key other : Bytes)
      → other ≢ key
      → client.get (client.delete st key).1 other ≡ client.get st other

-- secretsPrefix, topLevelKey and etcdKeyDelimeter
abbrev pub secrets_prefix : Bytes
secrets_prefix = codes "secrets"

abbrev pub top_level_key : Bytes
top_level_key = codes "lsat/proxy"

abbrev pub etcd_key_delimeter : ℕ
etcd_key_delimeter = b'/'

-- idKey
unfoldable pub id_key : Bytes → Bytes
id_key id = join etcd_key_delimeter (top_level_key ∷ secrets_prefix ∷ hex_encode id ∷ [])

module _ {S : Type 0} (client : EtcdClient S) where
  -- NewSecret, given what rand.Read puts into the secret
  unfoldable pub new_secret : Result Bytes → S → Bytes → Result Bytes × S
  new_secret (err e) st id = (err e, st)
  new_secret (ok secret) st id =
      let (written, st') = client.put st (id_key id) secret in (written >>= (λ u. ok secret), st')

  -- The secret among the values under a key
  unfoldable pub read_secret : List Bytes → Result Bytes
  read_secret [] = err err_secret_not_found
  read_secret (v ∷ vs) = if length v == secret_size then ok v else err fail

  -- GetSecret
  unfoldable pub get_secret : S → Bytes → Result Bytes
  unfolding read_secret
  get_secret st id = client.get st (id_key id) >>= read_secret

  -- RevokeSecret
  unfoldable pub revoke_secret : S → Bytes → Result (Unit {0}) × S
  revoke_secret st id = client.delete st (id_key id)

  -- newSecretStore
  abbrev pub etcd_store : Result Bytes → SecretStore S
  etcd_store random = record {
    new_secret = new_secret random;
    get_secret = get_secret;
    revoke_secret = revoke_secret;
  }
