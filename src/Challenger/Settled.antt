-- ===== src/Challenger/Settled.antt =====
-- The authenticator over the challenger of challenger/lnd.go: who has paid is let in, and no other.
use mathlib.Core.List.{Perm}
use aperture.Prelude.{
  ◌≡◌, refl, true, false, List, ◌∷◌, ◌++◌, Bytes, Option, some, none, Result, ok, err, length, All,
  In, arith,
}
use aperture.Go.HttpHeader.{Header}
use aperture.Go.Time.{Time}
use aperture.L402.Macaroon.{MacaroonLib, IsMacaroonLib}
use aperture.L402.Lntypes.{Lntypes, IsLntypes, IsPreimage}
use aperture.L402.Caveat.{Chains}
use aperture.L402.Header.{set_header}
use aperture.L402.Service.{Service}
use aperture.L402.Satisfier.{names}
use aperture.L402.Service.Codec.{IsPlain}
use aperture.Mint.{Config, mint_l402, maximum_price}
use aperture.Mint.Store.{IsSecretStore}
use aperture.Mint.Fresh.{Allows}
use aperture.Auth.{Minter, accept_l402}
use aperture.Auth.Accepted.{minter_of, IsAccepted, accept_l402_iff, accept-mint_l402}
use aperture.Challenger.{Invoice, InvoiceStates, invoice_settled, invoice_irrelevant}
use aperture.Challenger.Updates.{received, Reader, reading}
use aperture.Challenger.Wait.{WaitEvent, stream, look, call_of, run, invoice_checker, or_refused}
use aperture.Challenger.Awaited.{
  IsSeen, IsOther, verify_invoice_status-IsSeen, verify_invoice_status-later,
}

or_refused-ok : (o : Option (Result (Unit {0}))) → or_refused o ≡ ok tt → o ≡ some (ok tt)
or_refused-ok none h = absurd (cc h)
or_refused-ok (some (ok u)) h = refl
or_refused-ok (some (err e)) h = absurd (cc h)

-- Neither a deadline nor anything but its state makes a settled invoice irrelevant.
pub settled-relevant :
    (now : Time) (invoice : Invoice)
    → invoice.state ≡ invoice_settled
    → invoice_irrelevant now (some invoice) ≡ false
unfolding invoice_irrelevant
settled-relevant now invoice h = ground arith

module _ {S : Type 0} (lib : MacaroonLib) (ln : Lntypes) (part : S → InvoiceStates × Reader) where
  -- In any order of the goroutines, a request is accepted only if the preimage that its header
  -- carries is that of an invoice which the challenger held as SETTLED at some time of the call.
  pub accept_l402-IsSeen :
      (minter : Minter lib S) (es : List WaitEvent) (st : S) (header : Header) (service : Bytes)
      → accept_l402 lib ln minter (invoice_checker ln part es) st header service ≡ true
      → (a : IsAccepted lib ln minter (invoice_checker ln part es) st header service) × IsSeen ln
          (ln.preimage_hash a.preimage)
          invoice_settled
          es
          (call_of (part st).0 (part st).1)
  accept_l402-IsSeen minter es st header service h =
      let a = (accept_l402_iff lib ln minter (invoice_checker ln part es) st header service).0 h in
      (
        a,
        verify_invoice_status-IsSeen ln (ln.preimage_hash a.preimage) invoice_settled es (part st).0
            (part st).1 (or_refused-ok _ a.settled),
      )

module _ {S : Type 0} (lib : MacaroonLib) (ln : Lntypes) (laws : IsMacaroonLib lib)
    (hex : IsLntypes ln) (part : S → InvoiceStates × Reader) (cfg : Config S)
    (stores : IsSecretStore cfg.secrets) (perm : (m : Chains) → Perm (cfg.visit m) m) where
  -- Who has paid gets in: as `Auth.Accepted.accept-mint_l402`, where the reader of the stream
  -- receives the invoice as SETTLED at a time of the call when the reader still runs and the call is
  -- not over, whatever has happened in the call before (the waiting goroutine may have looked in
  -- vain and be blocked), and receives no other update of this invoice before the waiting goroutine
  -- has the lock again.
  pub accept-update :
      (st st' : S) (services : List Service) (mac : lib.Macaroon)
      (request preimage token_id target : Bytes) (later : Time) (h h' : Header) (now : Time)
      (invoice : Invoice) (r : Bytes) (xs es zs : List WaitEvent)
      → mint_l402 lib cfg st services ≡ (ok (mac, request), st')
      → cfg.new_challenge (maximum_price services) ≡ ok (request, cfg.sha256 preimage)
      → cfg.random_id ≡ ok token_id
      → length token_id ≡ 32
      → length (cfg.sha256 preimage) ≡ 32
      → All IsPlain services
      → In target (names services)
      → Allows cfg services target later
      → IsPreimage preimage
      → set_header lib ln h mac preimage ≡ ok h'
      → invoice.r_hash ≡ some r
      → ln.make_hash r ≡ ok (ln.preimage_hash preimage)
      → invoice.state ≡ invoice_settled
      → (run ln
          (ln.preimage_hash preimage)
          invoice_settled
          xs
          (call_of (part st').0 (part st').1)).reader
        ≡ reading
      → (run ln
          (ln.preimage_hash preimage)
          invoice_settled
          xs
          (call_of (part st').0 (part st').1)).outcome
        ≡ none
      → All (IsOther ln (ln.preimage_hash preimage) invoice_settled) es
      → accept_l402 lib ln
          (minter_of lib (record cfg { now = later }))
          (invoice_checker ln part (xs ++ stream (received now invoice) ∷ (es ++ (look ∷ zs))))
          st'
          h'
          target
        ≡ true
  accept-update st st' services mac request preimage token_id target later h h' now invoice r xs es
        zs minted paid random t s plain wanted a p e named made settled running waits others =
      accept-mint_l402 lib ln laws hex
        (invoice_checker ln part (xs ++ stream (received now invoice) ∷ (es ++ (look ∷ zs)))) cfg
        stores perm st st' services mac request preimage token_id target later h h' minted paid
        random t s plain wanted a p e
        (cc (
          verify_invoice_status-later ln (ln.preimage_hash preimage) invoice_settled now invoice r
            xs es zs (call_of (part st').0 (part st').1) named made settled
            (settled-relevant now invoice settled) running waits others))
