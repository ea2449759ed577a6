-- ===== src/Mint/Minted.antt =====
-- What MintL402 hands out, and what it leaves in the secret store.
use mathlib.Core.List.{append-nil, append_assoc}
use aperture.Prelude.{
  ◌≡◌, refl, ap, ◌∙◌, subst, List, [], ◌∷◌, ◌++◌, map, All, Lacks, Bytes, Result, ok, err,
  >>=-eq-ok, arith, is_ok, is_err, Result-cases,
}
use aperture.L402.Macaroon.{MacaroonLib, IsMacaroonLib}
use aperture.L402.Caveat.{Caveat, encode_caveat, add_first_party_caveats}
use aperture.L402.Caveat.Codec.{decode-encode}
use aperture.L402.Service.{Service}
use aperture.Mint.{
  location, Config, bake, with_secret, mint_l402, known_caveats, initial_caveats,
  create_unique_identifier, maximum_price,
}

-- A caveat whose text can be taken apart again.
abbrev pub IsReadable : Caveat → Type 0
IsReadable c = Lacks b'=' c.condition

pub known_caveats-encode :
    (cs : List Caveat) → All IsReadable cs → known_caveats (map encode_caveat cs) ≡ cs
unfolding known_caveats
known_caveats-encode [] h = refl
known_caveats-encode (c ∷ cs) h = ground (arith, decode-encode c h.0, known_caveats-encode cs h.1)

module _ (lib : MacaroonLib) (laws : IsMacaroonLib lib) where
  -- Adding caveats keeps the identifier, and what verified before verifies with the new texts.
  pub record Extends (key : Bytes) (m n : lib.Macaroon) (raws : List Bytes) : Type 0 where
    pub same_id : lib.id n ≡ lib.id m
    pub signed :
        (before : List Bytes)
        → lib.verify_signature m key ≡ ok before
        → lib.verify_signature n key ≡ ok (before ++ raws)

  add_caveats-Extends :
      (key : Bytes) (m n : lib.Macaroon) (cs : List Caveat)
      → add_first_party_caveats lib m cs ≡ ok n
      → Extends key m n (map encode_caveat cs)
  unfolding add_first_party_caveats
  add_caveats-Extends key m n [] e = record {
    same_id = ground arith;
    signed = λ before h. ground (arith, append-nil before);
  }
  add_caveats-Extends key m n (c ∷ cs) e =
      let (m', added, e') = >>=-eq-ok (lib.add_first_party_caveat m (encode_caveat c)) _ e in
      let rest = add_caveats-Extends key m' n cs e' in
      record {
        same_id = rest.same_id ∙ laws.id-add m m' (encode_caveat c) added;
        signed = λ before h.
            rest.signed _ (laws.verify-add m m' (encode_caveat c) key before added h)
            ∙ ap ok (append_assoc before (encode_caveat c ∷ []) (map encode_caveat cs));
      }

  module _ {S : Type 0} (cfg : Config S) where
    -- A macaroon that was baked with these caveats under this secret.
    pub record IsBaked (secret id : Bytes) (cs : List Caveat) (mac : lib.Macaroon) : Type 0 where
      pub named : lib.id mac ≡ id
      pub signed : lib.verify_signature mac secret ≡ ok (map encode_caveat cs)

    pub bake-IsBaked :
        (secret id : Bytes) (services : List Service) (cs : List Caveat) (mac : lib.Macaroon)
        → initial_caveats cfg.limiter services ≡ ok cs
        → bake lib cfg secret id services ≡ ok mac
        → IsBaked secret id cs mac
    unfolding bake
    bake-IsBaked secret id services cs mac limits e =
        let (m, made, e₁) = >>=-eq-ok (lib.make secret id location) _ e in
        let (cs', limits', e₂) = >>=-eq-ok (initial_caveats cfg.limiter services) _ e₁ in
        let same : cs' ≡ cs = ground arith in
        let ext =
          add_caveats-Extends secret m mac cs
            (subst (λ l. add_first_party_caveats lib m l ≡ ok mac) same e₂) in
        record {
          named = ext.same_id ∙ laws.id-make secret id location m made;
          signed = ext.signed [] (laws.verify-make secret id location m made);
        }

    pub bake-limits :
        (secret id : Bytes) (services : List Service) (mac : lib.Macaroon)
        → bake lib cfg secret id services ≡ ok mac
        → (cs : List Caveat) × (initial_caveats cfg.limiter services ≡ ok cs)
    unfolding bake
    bake-limits secret id services mac e =
        let (m, made, e₁) = >>=-eq-ok (lib.make secret id location) _ e in
        let (cs, limits, e₂) = >>=-eq-ok (initial_caveats cfg.limiter services) _ e₁ in (cs, limits)

    -- What a successful call went through.
    pub record IsMinted (st : S) (services : List Service) (mac : lib.Macaroon) (request : Bytes)
        (st' : S) : Type 0 where
      pub payment_hash : Bytes
      pub id : Bytes
      pub secret : Bytes
      pub challenged : cfg.new_challenge (maximum_price services) ≡ ok (request, payment_hash)
      pub identified : create_unique_identifier cfg.random_id payment_hash ≡ ok id
      pub stored : (cfg.secrets.new_secret st (cfg.sha256 id)).0 ≡ ok secret
      pub state : st' ≡ (cfg.secrets.new_secret st (cfg.sha256 id)).1
      pub baked : bake lib cfg secret id services ≡ ok mac

    with_secret-eq-ok :
        (id request request' : Bytes) (services : List Service) (r : Result Bytes × S)
        (mac : lib.Macaroon) (st' : S)
        → with_secret lib cfg id request services r ≡ (ok (mac, request'), st')
        → (secret : Bytes) × (r.0 ≡ ok secret)
          × (st' ≡ r.1)
          × (bake lib cfg secret id services ≡ ok mac)
          × (request ≡ request')
    unfolding with_secret
    with_secret-eq-ok id request request' services (err e, st) mac st' h = absurd (ground arith)
    with_secret-eq-ok id request request' services (ok secret, st) mac st' h =
        elim (Result-cases (bake lib cfg secret id services)) [
          | is_ok m e ↦ (secret, refl, ground arith, ground arith, ground arith)
          | is_err x e ↦ absurd (ground arith)
        ]

    pub mint-IsMinted :
        (st st' : S) (services : List Service) (mac : lib.Macaroon) (request : Bytes)
        → mint_l402 lib cfg st services ≡ (ok (mac, request), st')
        → IsMinted st services mac request st'
    unfolding mint_l402
    mint-IsMinted st st' services mac request e =
        elim (Result-cases (cfg.new_challenge (maximum_price services))) [
          | is_err x c ↦ absurd (ground arith)
          | is_ok (req, hash) c ↦
              elim (Result-cases (create_unique_identifier cfg.random_id hash)) [
                | is_err x i ↦ absurd (ground arith)
                | is_ok id i ↦
                    let (secret, stored, state, baked, same) =
                      with_secret-eq-ok id req request services
                        (cfg.secrets.new_secret st (cfg.sha256 id)) mac st' (ground arith) in
                    record {
                      payment_hash = hash;
                      id = id;
                      secret = secret;
                      challenged = ground arith;
                      identified = i;
                      stored = stored;
                      state = state;
                      baked = baked;
                    }
              ]
        ]
