-- ===== src/Mint/Revoked.antt =====
-- What a failed MintL402 leaves in the secret store.
use aperture.Prelude.{
  ◌≡◌, refl, sym, ◌∙◌, ◌⊎◌, inl, inr, List, Bytes, bytes_eq, bytes_eq_iff, Result, ok, err,
  err_secret_not_found, arith, is_ok, is_err, Result-cases, Bool-cases, subst, Error,
}
use aperture.L402.Macaroon.{MacaroonLib}
use aperture.L402.Service.{Service}
use aperture.Mint.{Config, bake, with_secret, mint_l402, create_unique_identifier, maximum_price}
use aperture.Mint.Store.{IsSecretStore}

module _ {S : Type 0} (cfg : Config S) where
  -- A revocation goes through, and a failed insertion changes nothing.
  pub record IsReliable : Type 0 where
    pub revokes : (st : S) (key : Bytes) → (cfg.secrets.revoke_secret st key).0 ≡ ok tt
    pub keeps :
        (st : S) (key other : Bytes) (e : Error)
        → (cfg.secrets.new_secret st key).0 ≡ err e
        → cfg.secrets.get_secret (cfg.secrets.new_secret st key).1 other
          ≡ cfg.secrets.get_secret st other

  -- A lookup finds what it found before, or nothing.
  abbrev pub NoneNew : S → S → Type 0
  NoneNew st st' =
      (key : Bytes)
      → (cfg.secrets.get_secret st' key ≡ cfg.secrets.get_secret st key)
        ⊎ (cfg.secrets.get_secret st' key ≡ err err_secret_not_found)

module _ {S : Type 0} (lib : MacaroonLib) (cfg : Config S)
    (stores : IsSecretStore cfg.secrets) where
  revoked-NoneNew :
      (st : S) (key : Bytes)
      → IsReliable cfg
      → NoneNew cfg st (cfg.secrets.revoke_secret (cfg.secrets.new_secret st key).1 key).1
  revoked-NoneNew st key r other = elim (Bool-cases (bytes_eq other key)) [
    | inl e ↦ inr (
        subst
          (λ k.
            cfg.secrets.get_secret
              (cfg.secrets.revoke_secret (cfg.secrets.new_secret st key).1 key).1 k
            ≡ err err_secret_not_found)
          (sym ((bytes_eq_iff other key).0 e)) (stores.get-revoke _ key (r.revokes _ key)))
    | inr e ↦
        let ne = λ (h : other ≡ key). absurd {A = ⊥} (ground (arith, bytes_eq_iff other key)) in
        inl (stores.get-revoke_ne _ key other ne ∙ stores.get-new_ne st key other ne)
  ]

  with_secret-NoneNew :
      (st st' : S) (id request : Bytes) (services : List Service) (e : Error) (r : Result Bytes × S)
      → cfg.secrets.new_secret st (cfg.sha256 id) ≡ r
      → IsReliable cfg
      → with_secret lib cfg id request services r ≡ (err e, st')
      → NoneNew cfg st st'
  unfolding with_secret
  with_secret-NoneNew st st' id request services e (err x, s) new r h =
      let same : (cfg.secrets.new_secret st (cfg.sha256 id)).1 ≡ st' = ground arith in
      subst (NoneNew cfg st) same (λ key. inl (r.keeps st (cfg.sha256 id) key x (ground arith)))
  with_secret-NoneNew st st' id request services e (ok secret, s) new r h =
      elim (Result-cases (bake lib cfg secret id services)) [
        | is_ok m b ↦ absurd (ground arith)
        | is_err x b ↦
            let key = cfg.sha256 id in
            let same : (cfg.secrets.revoke_secret (cfg.secrets.new_secret st key).1 key).1 ≡ st' =
              ground arith in
            subst (NoneNew cfg st) same (revoked-NoneNew st key r)
      ]

  -- If revocations go through and a failed insertion changes nothing, a failed minting leaves no
  -- new secret: each lookup afterwards finds what it found before, or nothing.
  pub mint-NoneNew :
      (st st' : S) (services : List Service) (e : Error)
      → IsReliable cfg
      → mint_l402 lib cfg st services ≡ (err e, st')
      → NoneNew cfg st st'
  unfolding mint_l402
  mint-NoneNew st st' services e r h =
      elim (Result-cases (cfg.new_challenge (maximum_price services))) [
        | is_err x c ↦ same (ground arith)
        | is_ok (request, hash) c ↦
            elim (Result-cases (create_unique_identifier cfg.random_id hash)) [
              | is_err x i ↦ same (ground arith)
              | is_ok id i ↦
                  with_secret-NoneNew st st' id request services e _ refl r (ground arith)
            ]
      ]
    where
      same : st ≡ st' → NoneNew cfg st st'
      same p = subst (NoneNew cfg st) p (λ key. inl refl)
