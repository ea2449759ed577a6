-- ===== src/EtcdSecrets/Kept.antt =====
-- The secret store of secrets.go keeps secrets as the mint expects.
use aperture.Prelude.{
  ℕ, ◌/◌, ◌%◌, ◌≡◌, refl, ap, [], ◌∷◌, Bytes, length, ok, ◌>>=◌, arith, Result-cases,
}
use aperture.Go.Hex.{hex_encode, hex_digit}
use aperture.Go.Strings.{join}
use aperture.L402.Identifier.{secret_size}
use aperture.Mint.Store.{IsSecretStore}
use aperture.EtcdSecrets.{
  EtcdClient, IsEtcdClient, id_key, new_secret, get_secret, read_secret, revoke_secret, etcd_store,
}

hex_digit-injective : (m n : ℕ) → hex_digit m ≡ hex_digit n → m ≡ n
hex_digit-injective m n h = ground arith

hex_encode-injective : (s t : Bytes) → hex_encode s ≡ hex_encode t → s ≡ t
unfolding hex_encode
hex_encode-injective [] [] h = refl
hex_encode-injective [] (b ∷ t) h = absurd (cc h)
hex_encode-injective (a ∷ s) [] h = absurd (cc h)
hex_encode-injective (a ∷ s) (b ∷ t) h =
    let high : a / 16 ≡ b / 16 = hex_digit-injective (a / 16) (b / 16) (cc h) in
    let low : a % 16 ≡ b % 16 = hex_digit-injective (a % 16) (b % 16) (cc h) in
    let first : a ≡ b = omega (arith, high, low) in
    let rest : s ≡ t = hex_encode-injective s t (cc h) in cc (first, rest)

-- Different identifiers have different keys.
id_key-injective : (s t : Bytes) → id_key s ≡ id_key t → s ≡ t
unfolding id_key join
id_key-injective s t h = hex_encode-injective s t (cc h)

module _ {S : Type 0} (client : EtcdClient S) (laws : IsEtcdClient client) where
  -- Over an etcd client that keeps its keys, the secret store meets the laws that the mint relies
  -- on, for each secret of 32 bytes that the random source gives: a new secret is found again, a
  -- revoked one is not, and the secrets of other identifiers stay as they are.
  pub etcd_store-IsSecretStore :
      (secret : Bytes) → length secret ≡ secret_size → IsSecretStore (etcd_store client (ok secret))
  unfolding new_secret get_secret read_secret revoke_secret
  etcd_store-IsSecretStore secret size = record {
    get-new = λ st key found e. ground (
      arith,
      e,
      size,
      laws.get-put st (id_key key) secret,
      Result-cases (client.put st (id_key key) secret).0,
    );
    get-new_ne = λ st key other n.
        ap (λ r. r >>= read_secret client)
          (laws.get-put_ne st (id_key key) (id_key other) secret
            (λ q. n (id_key-injective other key q)));
    get-revoke = λ st key e. ap (λ r. r >>= read_secret client) (laws.get-delete st (id_key key) e);
    get-revoke_ne = λ st key other n.
        ap (λ r. r >>= read_secret client)
          (laws.get-delete_ne st (id_key key) (id_key other)
            (λ q. n (id_key-injective other key q)));
  }
