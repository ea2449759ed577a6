-- ===== src/Mint/Fresh.antt =====
-- A minted L402 is accepted once it is paid for.
use mathlib.Core.List.{append-nil, Perm}
use aperture.Prelude.{
  ◌≡◌, refl, sym, ap, ◌∙◌, ◌≢◌, subst, List, [], ◌∷◌, ◌++◌, map, All, In, Bytes, bytes_eq_iff,
  bytes_eq_refl, Result, ok, ◌>>=◌, >>=-eq-ok, arith, length,
}
use aperture.Go.Time.{Time}
use aperture.L402.Macaroon.{MacaroonLib, IsMacaroonLib}
use aperture.L402.Caveat.{Caveat, Chains, encode_caveat}
use aperture.L402.Caveat.Grouping.{chain_of, Attenuates}
use aperture.L402.Service.{
  Service, cond_services, cond_timeout_suffix, new_services_caveat, encode_services_caveat_value,
}
use aperture.L402.Service.Codec.{IsPlain, unpriced, decode-encode_services}
use aperture.L402.Satisfier.{names, new_services_satisfier, new_timeout_satisfier, services_final}
use aperture.L402.Satisfier.Services.{services_final_iff}
use aperture.L402.Identifier.{encode_identifier, Identifier, decode_identifier}
use aperture.L402.Identifier.Codec.{decode-encode_identifier}
use aperture.Mint.{
  Config, mint_l402, verify_l402, initial_caveats, caveats_for_services, create_unique_identifier,
  maximum_price,
}
use aperture.Mint.Store.{IsSecretStore}
use aperture.Mint.Verified.{AreAuthorized, verify_l402_iff, timeout_condition-ne}
use aperture.Mint.Minted.{
  IsReadable, known_caveats-encode, bake-IsBaked, mint-IsMinted, bake-limits,
}

module _ {S : Type 0} (cfg : Config S) (services : List Service) (target : Bytes)
    (later : Time) where
  -- The service limiter answers with caveats whose texts can be taken apart, none of which is a
  -- services caveat, and whose timeouts for the target have not run out at the later time.
  pub record Allows : Type 0 where
    pub capabilities : List Caveat
    pub constraints : List Caveat
    pub timeouts : List Caveat
    pub capabilities_ok : cfg.limiter.service_capabilities services ≡ ok capabilities
    pub constraints_ok : cfg.limiter.service_constraints services ≡ ok constraints
    pub timeouts_ok : cfg.limiter.service_timeouts services ≡ ok timeouts
    pub readable : All IsReadable (capabilities ++ (constraints ++ timeouts))
    pub no_services : chain_of cond_services (capabilities ++ (constraints ++ timeouts)) ≡ []
    pub in_time :
        Attenuates
          (new_timeout_satisfier target later)
          (chain_of (target ++ cond_timeout_suffix) (capabilities ++ (constraints ++ timeouts)))

-- The first caveat of a macaroon for these services.
abbrev services_caveat : Bytes → Caveat
services_caveat v = record { condition = cond_services; value = v }

module _ {S : Type 0} (cfg : Config S) (target : Bytes) (later : Time) where
  limits :
      (services : List Service) (v : Bytes) (a : Allows cfg services target later)
      → services ≢ []
      → encode_services_caveat_value services ≡ ok v
      → initial_caveats cfg.limiter services
        ≡ ok (services_caveat v ∷ (a.capabilities ++ (a.constraints ++ a.timeouts)))
  unfolding initial_caveats caveats_for_services new_services_caveat
  limits [] v a n e = absurd (n refl)
  limits (s ∷ ss) v a n e = rw (e, a.capabilities_ok, a.constraints_ok, a.timeouts_ok) refl

initial-encoded :
    {S : Type 0} (cfg : Config S) (services : List Service) (cs : List Caveat)
    → services ≢ []
    → initial_caveats cfg.limiter services ≡ ok cs
    → (v : Bytes) × (encode_services_caveat_value services ≡ ok v)
unfolding initial_caveats caveats_for_services new_services_caveat
initial-encoded cfg [] cs n e = absurd (n refl)
initial-encoded cfg (s ∷ ss) cs n e =
    let (c, made, e₁) =
      >>=-eq-ok (encode_services_caveat_value (s ∷ ss) >>= λ v. ok (services_caveat v)) _ e in
    let (v, encoded, e₂) = >>=-eq-ok (encode_services_caveat_value (s ∷ ss)) _ made in (v, encoded)

names-unpriced : (ss : List Service) → names (map unpriced ss) ≡ names ss
names-unpriced [] = refl
names-unpriced (s ∷ ss) = ap (◌∷◌ s.name) (names-unpriced ss)

module _ (target : Bytes) (later : Time) (services : List Service) (v : Bytes) (rest : List Caveat)
    (plain : All IsPlain services) (wanted : In target (names services))
    (encoded : encode_services_caveat_value services ≡ ok v) where
  services_accepted : services_final target (services_caveat v) ≡ ok tt
  services_accepted = (services_final_iff target (services_caveat v)).1 (
    map unpriced services,
    decode-encode_services services v plain encoded,
    subst (In target) (sym (names-unpriced services)) wanted,
  )

  fresh_authorized :
      chain_of cond_services rest ≡ []
      → Attenuates
          (new_timeout_satisfier target later)
          (chain_of (target ++ cond_timeout_suffix) rest)
      → AreAuthorized target later (services_caveat v ∷ rest)
  fresh_authorized none_left in_time = (
    subst (Attenuates (new_services_satisfier target)) first services_accepted,
    subst (Attenuates (new_timeout_satisfier target later)) skipped in_time,
  )
    where
      first : services_caveat v ∷ [] ≡ chain_of cond_services (services_caveat v ∷ rest)
      first = ground (arith, bytes_eq_refl cond_services)

      skipped :
          chain_of (target ++ cond_timeout_suffix) rest
          ≡ chain_of (target ++ cond_timeout_suffix) (services_caveat v ∷ rest)
      skipped = ground (
        arith,
        bytes_eq_iff cond_services (target ++ cond_timeout_suffix),
        timeout_condition-ne target,
      )

In-ne-nil : (target : Bytes) (ss : List Service) → In target (names ss) → ss ≢ []
In-ne-nil target [] h = absurd h
In-ne-nil target (s ∷ ss) h = cc

-- The identifier of a minted macaroon can be read again.
pub minted_identifier :
    (random : Result Bytes) (tid hash id : Bytes)
    → random ≡ ok tid
    → length tid ≡ 32
    → length hash ≡ 32
    → create_unique_identifier random hash ≡ ok id
    → (i : Identifier) × (decode_identifier id ≡ ok i)
      × (i.payment_hash ≡ hash)
      × (i.token_id ≡ tid)
unfolding create_unique_identifier
minted_identifier random tid hash id r t h e =
    let i : Identifier = record { version = 0; payment_hash = hash; token_id = tid } in
    let encoded : encode_identifier i ≡ ok id = ground arith in
    let decoded =
      decode-encode_identifier i id [] (record { latest = refl; hash = h; token = t }) encoded in
    (i, subst (λ b. decode_identifier b ≡ ok i) (append-nil id) decoded, refl, refl)

module _ {S : Type 0} (lib : MacaroonLib) (laws : IsMacaroonLib lib) (cfg : Config S)
    (stores : IsSecretStore cfg.secrets) (perm : (m : Chains) → Perm (cfg.visit m) m) where
  -- A minted L402 is accepted for each service that it was minted for, by a later call with a
  -- preimage of the payment hash, if the service names are plain, the hash and the token id have 32
  -- bytes, and the service limiter's own caveats allow it.
  pub mint-verify :
      (st st' : S) (services : List Service) (mac : lib.Macaroon)
      (request preimage token_id target : Bytes) (later : Time)
      → mint_l402 lib cfg st services ≡ (ok (mac, request), st')
      → cfg.new_challenge (maximum_price services) ≡ ok (request, cfg.sha256 preimage)
      → cfg.random_id ≡ ok token_id
      → length token_id ≡ 32
      → length (cfg.sha256 preimage) ≡ 32
      → All IsPlain services
      → In target (names services)
      → Allows cfg services target later
      → verify_l402 lib (record cfg { now = later }) st' mac preimage target ≡ ok tt
  mint-verify st st' services mac request preimage token_id target later minted paid random t h
        plain wanted a =
      let m = mint-IsMinted lib laws cfg st st' services mac request minted in
      let some_service = In-ne-nil target services wanted in
      let (cs, limited) = bake-limits lib laws cfg m.secret m.id services mac m.baked in
      let (v, encoded) = initial-encoded cfg services cs some_service limited in
      let rest = a.capabilities ++ (a.constraints ++ a.timeouts) in
      let b =
        bake-IsBaked lib laws cfg m.secret m.id services (services_caveat v ∷ rest) mac
          (limits cfg target later services v a some_service encoded) m.baked in
      let hash : m.payment_hash ≡ cfg.sha256 preimage = ground (arith, m.challenged) in
      let (i, decoded, names_hash, names_token) =
        minted_identifier cfg.random_id token_id m.payment_hash m.id random t
          (subst (λ b. length b ≡ 32) (sym hash) h) m.identified in
      let readable : All IsReadable (services_caveat v ∷ rest) = (omega arith, a.readable) in
      (verify_l402_iff lib (record cfg { now = later }) perm st' mac preimage target).1 (record {
        id = i;
        decoded = subst (λ x. decode_identifier x ≡ ok i) (sym b.named) decoded;
        paid = sym hash ∙ sym names_hash;
        secret = m.secret;
        stored = rw (b.named, m.state) (stores.get-new st (cfg.sha256 m.id) m.secret m.stored);
        raws = map encode_caveat (services_caveat v ∷ rest);
        signed = b.signed;
        authorized = rw (known_caveats-encode (services_caveat v ∷ rest) readable) (
            fresh_authorized target later services v rest plain wanted encoded a.no_services
              a.in_time);
      })
