-- ===== src/Mint/Store.antt =====
-- The SecretStore interface of mint/mint.go, and what it promises.
use aperture.Prelude.{◌≡◌, ◌≢◌, Bytes, Result, ok, err, err_secret_not_found}

-- A state of the store holds its secrets and its source of randomness.
pub record SecretStore (S : Type 0) : Type 0 where
  pub new_secret : S → Bytes → Result Bytes × S
  pub get_secret : S → Bytes → Result Bytes
  pub revoke_secret : S → Bytes → Result (Unit {0}) × S

-- What the mint relies on in a secret store.
pub record IsSecretStore {S : Type 0} (store : SecretStore S) : Type 0 where
  pub get-new :
      (st : S) (key secret : Bytes)
      → (store.new_secret st key).0 ≡ ok secret
      → store.get_secret (store.new_secret st key).1 key ≡ ok secret
  pub get-new_ne :
      (st : S) (key other : Bytes)
      → other ≢ key
      → store.get_secret (store.new_secret st key).1 other ≡ store.get_secret st other
  pub get-revoke :
      (st : S) (key : Bytes)
      → (store.revoke_secret st key).0 ≡ ok tt
      → store.get_secret (store.revoke_secret st key).1 key ≡ err err_secret_not_found
  pub get-revoke_ne :
      (st : S) (key other : Bytes)
      → other ≢ key
      → store.get_secret (store.revoke_secret st key).1 other ≡ store.get_secret st other
