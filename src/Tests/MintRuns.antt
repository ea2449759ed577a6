-- ===== src/Tests/MintRuns.antt =====
-- A mint with a small store, and instances of the theorems about it.
use mathlib.Core.List.Perm
use aperture.Prelude.{
  inl, contains, ◌+◌, ℕ, ◌≡◌, refl, ◌↔◌, List, [], ◌∷◌, ◌++◌, All, Bytes, codes, Result, ok, err,
  fail, err_secret_not_found, pos, bytes_eq, bytes_eq_iff, arith, take, replicate, or_err,
}
use aperture.Go.Time.{Time, before, time_unix}
use aperture.Go.Maps.{lookup, put, delete, lookup-put, lookup-delete}
use aperture.L402.Service.{Service}
use aperture.Go.Strings.{split, split_n2}
use aperture.Go.Strconv.{parse_int, signed, format_uint}
use aperture.Go.Binary.{read_uint, read_some, put_uint}
use aperture.L402.Caveat.{decode_caveat, encode_caveat, add_first_party_caveats, verify_caveats}
use aperture.L402.Caveat.Grouping.{chain_of}
use aperture.L402.Satisfier.{services_previous, services_final, timeout_previous, timeout_final}
use aperture.L402.Satisfier.Services.{GrantsService}
use aperture.L402.Satisfier.Timeout.{ExpiresAfter}
use aperture.L402.Identifier.{encode_identifier, decode_identifier}
use aperture.L402.Service.{
  service_entry, new_services_caveat, encode_services_caveat_value, decode_services_caveat_value,
  cond_services,
}
use aperture.Mint.{create_unique_identifier, initial_caveats, known_caveats, caveats_for_services}
use aperture.Mint.{Config, mint_l402, verify_l402, maximum_price, ServiceLimiter}
use aperture.Mint.Store.{SecretStore, IsSecretStore}
use aperture.Mint.Verified.{IsVerified, verify_l402_iff, verify_l402-All}
use aperture.Mint.Fresh.{Allows, mint-verify}
use aperture.Mint.Revoked.{NoneNew, mint-NoneNew}
use aperture.Tests.Macaroons.{toy_verify, toys, toys-IsMacaroonLib, Toy}

abbrev pub Secrets : Type 0
Secrets = List (Bytes × Bytes)

abbrev pub toy_store : SecretStore Secrets
toy_store = record {
  new_secret = λ st key. (ok (codes "secret"), put key (codes "secret") st);
  get_secret = λ st key. or_err (lookup key st) err_secret_not_found;
  revoke_secret = λ st key. (ok tt, delete key st);
}

pub toy_store-IsSecretStore : IsSecretStore toy_store
toy_store-IsSecretStore = record {
  get-new = λ st key secret e.
      ground (arith, lookup-put key key (codes "secret") st, bytes_eq_iff key key);
  get-new_ne = λ st key other n.
      ground (arith, lookup-put key other (codes "secret") st, bytes_eq_iff key other);
  get-revoke = λ st key e. ground (arith, lookup-delete key key st, bytes_eq_iff key key);
  get-revoke_ne =
      λ st key other n. ground (arith, lookup-delete key other st, bytes_eq_iff key other);
}

abbrev pub toy_hash : Bytes → Bytes
toy_hash b = take 32 (b ++ replicate 32 0)

abbrev limiter : ServiceLimiter
limiter = record {
  service_capabilities =
      λ ss. ok (record { condition = codes "loop_capabilities"; value = codes "out" } ∷ []);
  service_constraints = λ ss. ok [];
  service_timeouts =
      λ ss. ok (record { condition = codes "loop_valid_until"; value = codes "2000" } ∷ []);
}

abbrev pub preimage : Bytes
preimage = codes "preimage"

abbrev at : ℕ → Time
at n = record { sec = pos (62135596800 + n); nsec = 0 }

abbrev pub config : Config Secrets
config = record {
  secrets = toy_store;
  new_challenge = λ price. ok (codes "lnbc", toy_hash preimage);
  limiter = limiter;
  random_id = ok (replicate 32 7);
  sha256 = toy_hash;
  now = at 100;
  visit = λ m. m;
}

abbrev pub services : List Service
services =
    record { name = codes "loop"; tier = 0; price = pos 9 }
    ∷ record { name = codes "pool"; tier = 1; price = pos 3 }
    ∷ []

abbrev pub minted : Result (Toy × Bytes) × Secrets
minted = mint_l402 toys config [] services

abbrev pub mac : Toy
mac = elim (minted.0) [ ok (m, r) ↦ m | err e ↦ record { key = []; id = []; caveats = [] } ]

unfoldable pub runs : Unit {0}
unfolding mint_l402 verify_l402 put_uint read_uint read_some lookup put delete bytes_eq contains
    maximum_price create_unique_identifier initial_caveats new_services_caveat
    encode_services_caveat_value decode_services_caveat_value split split_n2 decode_caveat
    encode_caveat add_first_party_caveats known_caveats verify_caveats services_final timeout_final
    services_previous timeout_previous parse_int signed time_unix before format_uint service_entry
    decode_identifier encode_identifier toy_verify caveats_for_services
runs = tt

abbrev pub later : Time
later = at 1500

accepted :
    verify_l402 toys (record config { now = later }) minted.1 mac preimage (codes "loop") ≡ ok tt
unfolding runs
accepted = refl

expired :
    verify_l402 toys (record config { now = at 2000 }) minted.1 mac preimage (codes "loop")
    ≡ err fail
unfolding runs
expired = refl

pub loop_allowed : Allows config services (codes "loop") later
unfolding runs
loop_allowed = record {
  capabilities = record { condition = codes "loop_capabilities"; value = codes "out" } ∷ [];
  constraints = [];
  timeouts = record { condition = codes "loop_valid_until"; value = codes "2000" } ∷ [];
  capabilities_ok = refl;
  constraints_ok = refl;
  timeouts_ok = refl;
  readable = omega arith;
  no_services = refl;
  in_time = refl;
}

mint-verify_example :
    verify_l402 toys (record config { now = later }) minted.1 mac preimage (codes "loop") ≡ ok tt
unfolding runs
mint-verify_example =
    mint-verify toys toys-IsMacaroonLib config toy_store-IsSecretStore (λ m. Perm.refl m) []
      minted.1 services mac (codes "lnbc") preimage (replicate 32 7) (codes "loop") later refl refl
      refl refl refl (omega arith) (inl refl) loop_allowed

verify_l402_iff_example :
    (verify_l402 toys config minted.1 mac preimage (codes "loop") ≡ ok tt)
    ↔ IsVerified toys config minted.1 mac preimage (codes "loop")
verify_l402_iff_example =
    verify_l402_iff toys config (λ m. Perm.refl m) minted.1 mac preimage (codes "loop")

verify_l402-All_example :
    let cs = known_caveats mac.caveats in
    All (GrantsService (codes "loop")) (chain_of cond_services cs)
    × All (ExpiresAfter (at 100)) (chain_of (codes "loop_valid_until") cs)
unfolding runs
verify_l402-All_example =
    verify_l402-All toys config (λ m. Perm.refl m) minted.1 mac preimage (codes "loop")
      toys-IsMacaroonLib refl

-- The limiter fails after the secret was stored.
abbrev broken : Config Secrets
broken = record config { limiter = record limiter { service_constraints = λ ss. err fail } }

mint-NoneNew_example : NoneNew broken [] []
unfolding runs
mint-NoneNew_example =
    mint-NoneNew toys broken toy_store-IsSecretStore [] [] services fail
      (record { revokes = λ st key. refl; keeps = λ st key other e h. absurd (cc h) }) refl
