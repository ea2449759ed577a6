-- ===== src/Mint/Verified.antt =====
-- What a successful verification has established.
use mathlib.Core.List.{Perm}
use aperture.Prelude.{
  inl, inr, Bool-cases, bytes_eq_refl, ◌≡◌, ap, ◌≢◌, ◌↔◌, subst, some, List, ◌++◌, All, Bytes,
  bytes_eq, bytes_eq_iff, Result, ok, ◌>>=◌, ◌>>◌, >>=-eq-ok, guard, fail, arith, length,
  length-append,
}
use aperture.Go.Time.{Time}
use aperture.L402.Macaroon.{MacaroonLib, IsMacaroonLib}
use aperture.L402.Caveat.{Caveat, Chains, verify_caveats}
use aperture.L402.Caveat.Grouping.{satisfier_for, chain_of, Attenuates, IsAuthorized}
use aperture.L402.Caveat.Authorized.{verify_caveats_iff}
use aperture.L402.Service.{cond_services, cond_timeout_suffix}
use aperture.L402.Satisfier.{new_services_satisfier, new_timeout_satisfier}
use aperture.L402.Satisfier.Chain.{guard-eq-ok_iff}
use aperture.L402.Satisfier.Services.{GrantsService, services-Attenuates-All}
use aperture.L402.Satisfier.Timeout.{ExpiresAfter, timeout-Attenuates-All}
use aperture.L402.Identifier.{Identifier, decode_identifier}
use aperture.Mint.{Config, known_caveats, satisfiers_for, verify_l402}

-- The two conditions that verification knows are never the same.
pub timeout_condition-ne : (target : Bytes) → target ++ cond_timeout_suffix ≢ cond_services
timeout_condition-ne target e =
    let n = length-append target cond_timeout_suffix in omega (arith, ap length e)

satisfier_for-services :
    (target : Bytes) (now : Time)
    → satisfier_for cond_services (satisfiers_for target now) ≡ some (new_services_satisfier target)
satisfier_for-services target now = ground (
  arith,
  timeout_condition-ne target,
  bytes_eq_iff (target ++ cond_timeout_suffix) cond_services,
  bytes_eq_refl cond_services,
)

satisfier_for-timeout :
    (target : Bytes) (now : Time)
    → satisfier_for (target ++ cond_timeout_suffix) (satisfiers_for target now)
      ≡ some (new_timeout_satisfier target now)
satisfier_for-timeout target now = ground (arith, bytes_eq_refl (target ++ cond_timeout_suffix))

-- The chains of the two conditions that verification knows.
abbrev pub AreAuthorized : Bytes → Time → List Caveat → Type 0
AreAuthorized target now cs =
    Attenuates (new_services_satisfier target) (chain_of cond_services cs)
    × Attenuates (new_timeout_satisfier target now) (chain_of (target ++ cond_timeout_suffix) cs)

IsAuthorized-iff :
    (target : Bytes) (now : Time) (cs : List Caveat)
    → IsAuthorized (satisfiers_for target now) cs ↔ AreAuthorized target now cs
IsAuthorized-iff target now cs = (
  λ h. (h _ _ (satisfier_for-services target now), h _ _ (satisfier_for-timeout target now)),
  back,
)
  where
    back : AreAuthorized target now cs → IsAuthorized (satisfiers_for target now) cs
    back (services, timeouts) k s e =
        elim (Bool-cases (bytes_eq (target ++ cond_timeout_suffix) k)) [
          | inl hit ↦
              let same : target ++ cond_timeout_suffix ≡ k = (bytes_eq_iff _ k).0 hit in
              let this : new_timeout_satisfier target now ≡ s = ground arith in
              subst (λ t. Attenuates t (chain_of k cs)) this
                (subst (λ k. Attenuates (new_timeout_satisfier target now) (chain_of k cs)) same
                  timeouts)
          | inr miss ↦
              let same : cond_services ≡ k = ground (arith, bytes_eq_iff cond_services k) in
              let this : new_services_satisfier target ≡ s = ground arith in
              subst (λ t. Attenuates t (chain_of k cs)) this
                (subst (λ k. Attenuates (new_services_satisfier target) (chain_of k cs)) same
                  services)
        ]

module _ {S : Type 0} (lib : MacaroonLib) (cfg : Config S) where
  -- The macaroon's identifier names the hash of the preimage, its signature verifies under the
  -- secret stored for it, and its caveats authorize the target now.
  pub record IsVerified (st : S) (mac : lib.Macaroon) (preimage target : Bytes) : Type 0 where
    pub id : Identifier
    pub decoded : decode_identifier (lib.id mac) ≡ ok id
    pub paid : cfg.sha256 preimage ≡ id.payment_hash
    pub secret : Bytes
    pub stored : cfg.secrets.get_secret st (cfg.sha256 (lib.id mac)) ≡ ok secret
    pub raws : List Bytes
    pub signed : lib.verify_signature mac secret ≡ ok raws
    pub authorized : AreAuthorized target cfg.now (known_caveats raws)

module _ {S : Type 0} (lib : MacaroonLib) (cfg : Config S)
    (perm : (m : Chains) → Perm (cfg.visit m) m) where
  -- Verification succeeds exactly when the identifier can be decoded and names the hash of the
  -- preimage, the store has a secret for it under which the signature verifies, and the services
  -- and timeout caveats each form a chain that authorizes the target now.
  pub verify_l402_iff :
      (st : S) (mac : lib.Macaroon) (preimage target : Bytes)
      → (verify_l402 lib cfg st mac preimage target ≡ ok tt)
        ↔ IsVerified lib cfg st mac preimage target
  unfolding verify_l402
  verify_l402_iff st mac preimage target = (to, from)
    where
      run : Result (Unit {0})
      run = do
        id ← decode_identifier (lib.id mac)
        guard (bytes_eq (cfg.sha256 preimage) id.payment_hash) fail
        secret ← cfg.secrets.get_secret st (cfg.sha256 (lib.id mac))
        raws ← lib.verify_signature mac secret
        verify_caveats cfg.visit (known_caveats raws) (satisfiers_for target cfg.now)

      to : run ≡ ok tt → IsVerified lib cfg st mac preimage target
      to h =
          let (id, decoded, h₁) = >>=-eq-ok (decode_identifier (lib.id mac)) _ h in
          let (u, paid, h₂) =
            >>=-eq-ok (guard (bytes_eq (cfg.sha256 preimage) id.payment_hash) fail) _ h₁ in
          let (secret, stored, h₃) =
            >>=-eq-ok (cfg.secrets.get_secret st (cfg.sha256 (lib.id mac))) _ h₂ in
          let (raws, signed, h₄) = >>=-eq-ok (lib.verify_signature mac secret) _ h₃ in
          record {
            id = id;
            decoded = decoded;
            paid = (bytes_eq_iff _ _).0 ((guard-eq-ok_iff _).0 paid);
            secret = secret;
            stored = stored;
            raws = raws;
            signed = signed;
            authorized = (IsAuthorized-iff target cfg.now (known_caveats raws)).0 (
                (verify_caveats_iff cfg.visit perm (known_caveats raws)
                    (satisfiers_for target cfg.now)).0
                  h₄);
          }

      from : IsVerified lib cfg st mac preimage target → run ≡ ok tt
      from v =
          rw (v.decoded, (bytes_eq_iff _ _).1 v.paid, v.stored, v.signed)
            ((verify_caveats_iff cfg.visit perm (known_caveats v.raws)
                (satisfiers_for target cfg.now)).1
              ((IsAuthorized-iff target cfg.now (known_caveats v.raws)).1 v.authorized))

  -- If verification succeeds, every services caveat of the macaroon that has the condition
  -- "services" names the target, and every timeout caveat of the target names a later time.
  pub verify_l402-All :
      (st : S) (mac : lib.Macaroon) (preimage target : Bytes)
      → IsMacaroonLib lib
      → verify_l402 lib cfg st mac preimage target ≡ ok tt
      → let cs = known_caveats (lib.caveats mac) in
        All (GrantsService target) (chain_of cond_services cs)
        × All (ExpiresAfter cfg.now) (chain_of (target ++ cond_timeout_suffix) cs)
  verify_l402-All st mac preimage target laws h =
      let v = (verify_l402_iff st mac preimage target).0 h in
      rw (← laws.verify-caveats mac v.secret v.raws v.signed) (
        services-Attenuates-All target _ v.authorized.0,
        timeout-Attenuates-All target cfg.now _ v.authorized.1,
      )
