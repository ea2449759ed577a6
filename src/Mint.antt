-- ===== src/Mint.antt =====
-- mint/mint.go: minting and verifying L402s. The macaroon library, the challenger, the secret
-- store, the service limiter, SHA-256, the random token id and the clock are parameters.
pub mod Store
pub mod Price
pub mod Verified
pub mod Minted
pub mod Fresh
pub mod Revoked
use aperture.Prelude.{
  ◌≡◌, Bool, true, false, List, [], ◌∷◌, ◌++◌, if◌then◌else◌, Bytes, bytes_eq, codes, Result, ok,
  err, ◌>>=◌, ◌>>◌, guard, not, fail, ℤ, pos, ltb_ℤ,
}
use aperture.Go.Time.{Time}
use aperture.L402.Macaroon.{MacaroonLib}
use aperture.L402.Caveat.{
  Caveat, Chains, Satisfier, decode_caveat, add_first_party_caveats, verify_caveats,
}
use aperture.L402.Service.{Service, new_services_caveat}
use aperture.L402.Satisfier.{new_services_satisfier, new_timeout_satisfier}
use aperture.L402.Identifier.{latest_version, encode_identifier, decode_identifier}
use Store.{SecretStore}

-- The ServiceLimiter interface.
pub record ServiceLimiter : Type 0 where
  pub service_capabilities : List Service → Result (List Caveat)
  pub service_constraints : List Service → Result (List Caveat)
  pub service_timeouts : List Service → Result (List Caveat)

-- What one call of the mint depends on: Config, and the functions that it reaches through packages.
pub record Config (S : Type 0) : Type 0 where
  pub secrets : SecretStore S
  -- NewChallenge: the payment request and the payment hash
  pub new_challenge : ℤ → Result (Bytes × Bytes)
  pub limiter : ServiceLimiter
  -- what rand.Read puts into the next token id
  pub random_id : Result Bytes
  -- sha256.Sum256, which is Preimage.Hash too
  pub sha256 : Bytes → Bytes
  pub now : Time
  -- the order in which VerifyCaveats ranges over its map
  pub visit : Chains → Chains

unfoldable pub maximum_price_from : ℤ → List Service → ℤ
maximum_price_from max [] = max
maximum_price_from max (s ∷ ss) = maximum_price_from (if ltb_ℤ max s.price then s.price else max) ss

unfoldable pub maximum_price : List Service → ℤ
unfolding maximum_price_from
maximum_price services = maximum_price_from (pos 0) services

unfoldable pub create_unique_identifier : Result Bytes → Bytes → Result Bytes
create_unique_identifier random_id payment_hash = do
  token_id ← random_id
  encode_identifier
      (record { version = latest_version; payment_hash = payment_hash; token_id = token_id })

unfoldable pub caveats_for_services : ServiceLimiter → List Service → Result (List Caveat)
caveats_for_services limiter services = do
  services_caveat ← new_services_caveat services
  capabilities ← limiter.service_capabilities services
  constraints ← limiter.service_constraints services
  timeouts ← limiter.service_timeouts services
  ok (services_caveat ∷ (capabilities ++ (constraints ++ timeouts)))

-- `if len(services) > 0 { caveats, err = m.caveatsForServices(...) }`
unfoldable pub initial_caveats : ServiceLimiter → List Service → Result (List Caveat)
initial_caveats limiter [] = ok []
initial_caveats limiter (s ∷ ss) = caveats_for_services limiter (s ∷ ss)

-- The location of a minted macaroon.
abbrev pub location : Bytes
location = codes "lsat"

module _ {S : Type 0} (lib : MacaroonLib) (cfg : Config S) where
  -- What follows NewSecret: the macaroon and its caveats.
  unfoldable pub bake : Bytes → Bytes → List Service → Result lib.Macaroon
  bake secret id services = do
    mac ← lib.make secret id location
    caveats ← initial_caveats cfg.limiter services
    add_first_party_caveats lib mac caveats

  -- A failure after NewSecret revokes the secret; the error of that is dropped.
  unfoldable pub or_revoke {ℓ} : {A : Type ℓ} → Bytes → Result A → S → Result A × S
  or_revoke key (ok a) st = (ok a, st)
  or_revoke key (err e) st = (err e, (cfg.secrets.revoke_secret st key).1)

  unfoldable pub with_secret :
      Bytes → Bytes → List Service → Result Bytes × S → Result (lib.Macaroon × Bytes) × S
  unfolding bake or_revoke
  with_secret id request services (err e, st) = (err e, st)
  with_secret id request services (ok secret, st) =
      or_revoke (cfg.sha256 id) (bake secret id services >>= λ mac. ok (mac, request)) st

  -- MintL402: the macaroon and the payment request, and the secret store after the call.
  unfoldable pub mint_l402 : S → List Service → Result (lib.Macaroon × Bytes) × S
  unfolding with_secret
  mint_l402 st services = elim (cfg.new_challenge (maximum_price services)) [
    | err e ↦ (err e, st)
    | ok (request, payment_hash) ↦ elim (create_unique_identifier cfg.random_id payment_hash) [
      | err e ↦ (err e, st)
      | ok id ↦ with_secret id request services (cfg.secrets.new_secret st (cfg.sha256 id))
    ]
  ]

-- The raw caveats that can be decoded.
unfoldable pub known_caveats : List Bytes → List Caveat
known_caveats [] = []
known_caveats (raw ∷ raws) =
    let rest = known_caveats raws in elim (decode_caveat raw) [ err e ↦ rest | ok c ↦ c ∷ rest ]

abbrev pub satisfiers_for : Bytes → Time → List Satisfier
satisfiers_for target now = new_services_satisfier target ∷ new_timeout_satisfier target now ∷ []

module _ {S : Type 0} (lib : MacaroonLib) (cfg : Config S) where
  -- VerifyL402(macaroon, preimage, targetService)
  unfoldable pub verify_l402 : S → lib.Macaroon → Bytes → Bytes → Result (Unit {0})
  verify_l402 st mac preimage target = do
    id ← decode_identifier (lib.id mac)
    guard (bytes_eq (cfg.sha256 preimage) id.payment_hash) fail
    secret ← cfg.secrets.get_secret st (cfg.sha256 (lib.id mac))
    raw_caveats ← lib.verify_signature mac secret
    verify_caveats cfg.visit (known_caveats raw_caveats) (satisfiers_for target cfg.now)
