-- ===== src/Auth.antt =====
-- auth/interface.go and auth/authenticator.go: which headers are accepted, and the challenge.
pub mod Level
pub mod Accepted
use aperture.Prelude.{
  ℕ, ◌≡◌, Bool, true, false, List, [], ◌∷◌, ◌++◌, Bytes, codes, Result, ok, err, ◌>>=◌, ℤ,
}
use aperture.Go.Base64.{base64_encode}
use aperture.Go.HttpHeader.{Header, set, add}
use aperture.L402.Macaroon.{MacaroonLib}
use aperture.L402.Lntypes.{Lntypes}
use aperture.L402.Header.{from_header}
use aperture.L402.Service.{Service, base_tier}

-- Authenticator, with its state explicit
pub record Authenticator (S : Type 0) : Type 0 where
  pub accept : S → Header → Bytes → Bool
  pub fresh_challenge_header : S → Bytes → ℤ → Result Header × S

-- Minter
pub record Minter (lib : MacaroonLib) (S : Type 0) : Type 0 where
  pub mint_l402 : S → List Service → Result (lib.Macaroon × Bytes) × S
  pub verify_l402 : S → lib.Macaroon → Bytes → Bytes → Result (Unit {0})

-- InvoiceChecker, asked for the state SETTLED within DefaultInvoiceLookupTimeout
pub record InvoiceChecker (S : Type 0) : Type 0 where
  pub verify_invoice_settled : S → Bytes → Result (Unit {0})

abbrev pub lsat_auth_scheme : Bytes
lsat_auth_scheme = codes "LSAT"

abbrev pub l402_auth_scheme : Bytes
l402_auth_scheme = codes "L402"

abbrev pub www_authenticate : Bytes
www_authenticate = codes "Www-Authenticate"

-- The common part of the two challenges.
unfoldable pub challenge_text : Bytes → Bytes → Bytes
challenge_text mac_bytes payment_request =
    codes "macaroon=\""
    ++ (base64_encode mac_bytes ++ (codes "\", invoice=\"" ++ (payment_request ++ codes "\"")))

-- The header of a challenge: the legacy scheme goes first.
unfoldable pub challenge_header : Bytes → Header
challenge_header str =
    let header = (codes "Content-Type", codes "application/grpc" ∷ []) ∷ [] in
    add www_authenticate (l402_auth_scheme ++ 32 ∷ str)
      (set www_authenticate (lsat_auth_scheme ++ 32 ∷ str) header)

abbrev pub is_nil : Result (Unit {0}) → Bool
is_nil (ok u) = true
is_nil (err e) = false

abbrev or_empty : Result Bytes → Bytes
or_empty (ok b) = b
or_empty (err e) = []

module _ {S : Type 0} (lib : MacaroonLib) (ln : Lntypes) where
  -- Accept
  unfoldable pub accept_l402 : Minter lib S → InvoiceChecker S → S → Header → Bytes → Bool
  accept_l402 minter checker st header service_name = is_nil do
    (mac, preimage) ← from_header lib ln header
    verified ← minter.verify_l402 st mac preimage service_name
    checker.verify_invoice_settled st (ln.preimage_hash preimage)

  -- FreshChallengeHeader: a macaroon that cannot be written is logged and written as nothing.
  unfoldable pub fresh_challenge : Minter lib S → S → Bytes → ℤ → Result Header × S
  unfolding challenge_header challenge_text
  fresh_challenge minter st service_name service_price =
      let (minted, st') =
        minter.mint_l402 st
          (record { name = service_name; tier = base_tier; price = service_price } ∷ []) in
      elim minted [
        | err e ↦ (err e, st')
        | ok (mac, request) ↦ (
          ok (challenge_header (challenge_text (or_empty (lib.marshal_binary mac)) request)),
          st',
        )
      ]

  -- NewL402Authenticator
  unfoldable pub new_l402_authenticator : Minter lib S → InvoiceChecker S → Authenticator S
  unfolding accept_l402 fresh_challenge
  new_l402_authenticator minter checker = record {
    accept = accept_l402 minter checker;
    fresh_challenge_header = fresh_challenge minter;
  }
