-- ===== src/Auth/Accepted.antt =====
-- When auth/authenticator.go accepts a request.
use mathlib.Core.List.{Perm}
use aperture.Prelude.{
  ◌≡◌, ◌↔◌, refl, true, List, Bytes, length, Result, ok, err, Result-cases, is_ok, is_err, All, In,
  arith,
}
use aperture.Go.HttpHeader.{Header}
use aperture.Go.Time.{Time}
use aperture.L402.Macaroon.{MacaroonLib, IsMacaroonLib}
use aperture.L402.Lntypes.{Lntypes, IsLntypes, IsPreimage}
use aperture.L402.Caveat.{Chains}
use aperture.L402.Header.{from_header, set_header}
use aperture.L402.Header.RoundTrip.{from-set_header}
use aperture.L402.Service.{Service}
use aperture.L402.Satisfier.{names}
use aperture.L402.Service.Codec.{IsPlain}
use aperture.Mint.{Config, mint_l402, verify_l402, maximum_price}
use aperture.Mint.Store.{IsSecretStore}
use aperture.Mint.Fresh.{Allows, mint-verify}
use aperture.Auth.{Minter, InvoiceChecker, is_nil, accept_l402}

-- The mint as the authenticator's minter.
abbrev pub minter_of : {S : Type 0} → (lib : MacaroonLib) → Config S → Minter lib S
minter_of lib cfg = record { mint_l402 = mint_l402 lib cfg; verify_l402 = verify_l402 lib cfg }

is_nil-ok : (r : Result (Unit {0})) → is_nil r ≡ true → r ≡ ok tt
is_nil-ok (ok u) h = refl
is_nil-ok (err e) h = absurd (cc h)

module _ {S : Type 0} (lib : MacaroonLib) (ln : Lntypes) (minter : Minter lib S)
    (checker : InvoiceChecker S) where
  -- What an accepted header shows.
  pub record IsAccepted (st : S) (header : Header) (service_name : Bytes) : Type 0 where
    pub mac : lib.Macaroon
    pub preimage : Bytes
    pub read : from_header lib ln header ≡ ok (mac, preimage)
    pub verified : minter.verify_l402 st mac preimage service_name ≡ ok tt
    pub settled : checker.verify_invoice_settled st (ln.preimage_hash preimage) ≡ ok tt

  -- A header is accepted for a service just when a macaroon and a preimage can be read from it,
  -- which the minter verifies for the service, and the invoice of the preimage's hash is settled.
  pub accept_l402_iff :
      (st : S) (header : Header) (service_name : Bytes)
      → (accept_l402 lib ln minter checker st header service_name ≡ true)
        ↔ IsAccepted st header service_name
  unfolding accept_l402
  accept_l402_iff st header service_name = (forth, back)
    where
      forth :
          accept_l402 lib ln minter checker st header service_name ≡ true
          → IsAccepted st header service_name
      forth h = elim (Result-cases (from_header lib ln header)) [
        | is_err f e ↦ absurd (ground (arith, e, h))
        | is_ok c e ↦ elim (Result-cases (minter.verify_l402 st c.0 c.1 service_name)) [
          | is_err f k ↦ absurd (ground (arith, e, k, h))
          | is_ok u k ↦ record {
            mac = c.0;
            preimage = c.1;
            read = e;
            verified = k;
            settled = is_nil-ok _ (ground (arith, e, k, h));
          }
        ]
      ]

      back :
          IsAccepted st header service_name
          → accept_l402 lib ln minter checker st header service_name ≡ true
      back a = ground (arith, a.read, a.verified, a.settled)

module _ {S : Type 0} (lib : MacaroonLib) (ln : Lntypes) (laws : IsMacaroonLib lib)
    (hex : IsLntypes ln) (checker : InvoiceChecker S) (cfg : Config S)
    (stores : IsSecretStore cfg.secrets) (perm : (m : Chains) → Perm (cfg.visit m) m) where
  -- A client that pays is let in: the macaroon that was minted for some services and the preimage
  -- of its payment hash, set in any header, are accepted for each of these services by a later
  -- call, once the invoice is settled. The service names are plain, hash and token id have 32
  -- bytes, and the service limiter's own caveats allow it.
  pub accept-mint_l402 :
      (st st' : S) (services : List Service) (mac : lib.Macaroon)
      (request preimage token_id target : Bytes) (later : Time) (h h' : Header)
      → mint_l402 lib cfg st services ≡ (ok (mac, request), st')
      → cfg.new_challenge (maximum_price services) ≡ ok (request, cfg.sha256 preimage)
      → cfg.random_id ≡ ok token_id
      → length token_id ≡ 32
      → length (cfg.sha256 preimage) ≡ 32
      → All IsPlain services
      → In target (names services)
      → Allows cfg services target later
      → IsPreimage preimage
      → set_header lib ln h mac preimage ≡ ok h'
      → checker.verify_invoice_settled st' (ln.preimage_hash preimage) ≡ ok tt
      → accept_l402 lib ln (minter_of lib (record cfg { now = later })) checker st' h' target ≡ true
  accept-mint_l402 st st' services mac request preimage token_id target later h h' minted paid
        random t s plain wanted a p e settled =
      (accept_l402_iff lib ln (minter_of lib (record cfg { now = later })) checker st' h' target).1
        (record {
          mac = mac;
          preimage = preimage;
          read = from-set_header lib ln laws hex h mac preimage h' p e;
          verified =
              mint-verify lib laws cfg stores perm st st' services mac request preimage token_id
                target later minted paid random t s plain wanted a;
          settled = settled;
        })
