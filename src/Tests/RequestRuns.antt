-- ===== src/Tests/RequestRuns.antt =====
-- A small lntypes package, and instances of the theorems about headers and the authenticator.
use mathlib.Core.List.Perm
use aperture.Prelude.{
  bytes_eq, some, ℕ, ◌≡◌, ◌<◌, ◌%◌, ◌/◌, refl, inl, true, [], ◌∷◌, All, Bytes, codes, length,
  replicate, if◌then◌else◌, ◌==◌, Result, ok, err, ◌>>=◌, fail, arith,
}
use aperture.Go.Hex.{
  AreBytes, hex_encode, hex_decode, hex_decode-encode, length-hex_encode, hex_digit,
}
use aperture.Go.HttpHeader.{values, Header}
use aperture.L402.Lntypes.{Lntypes, IsLntypes, IsPreimage, is_lower_hex}
use aperture.L402.Header.{auth_value, header_authorization, from_header}
use aperture.Go.Maps.{lookup}
use aperture.L402.Header.Last.{only, from_header-last}
use aperture.L402.Header.RoundTrip.{written, written-values, from_header-values, set_header-ok}
use aperture.Auth.{InvoiceChecker, accept_l402}
use aperture.Auth.Accepted.{minter_of, accept-mint_l402}
use aperture.Tests.Macaroons.{Toy, toys, toys-IsMacaroonLib, toy_marshal}
use aperture.Tests.MintRuns.{
  Secrets, toy_store-IsSecretStore, toy_hash, config, services, later, loop_allowed, runs,
}
use aperture.Mint.{Config, mint_l402}
use aperture.Mint.Fresh.{Allows}
use aperture.L402.ServerInterceptor.{
  Metadata, Context, key_token_id, from_context, serve_unary, serve_stream,
}
use aperture.L402.ServerInterceptor.Identified.{from_context-mint}

abbrev pub in_size : Bytes → Result Bytes
in_size b = if length b == 32 then ok b else err fail

abbrev pub toy_ln : Lntypes
toy_ln = record {
  make_preimage_from_str = λ s. hex_decode s >>= in_size;
  preimage_string = hex_encode;
  preimage_hash = toy_hash;
  make_hash = in_size;
}

digit-lower : (n : ℕ) → n < 16 → is_lower_hex (hex_digit n) ≡ true
digit-lower n h = ground arith

encode-lower : (s : Bytes) → AreBytes s → All (λ c. is_lower_hex c ≡ true) (hex_encode s)
unfolding hex_encode
encode-lower [] h = tt
encode-lower (b ∷ s) h =
    (digit-lower (b / 16) (omega arith), (digit-lower (b % 16) (omega arith), encode-lower s h.1))

in_size-ok : (b : Bytes) → length b ≡ 32 → in_size b ≡ ok b
in_size-ok b h = rw h refl

pub toy_ln-IsLntypes : IsLntypes toy_ln
toy_ln-IsLntypes = record {
  string_length = λ p h. omega (arith, length-hex_encode p, h.0);
  string_hex = λ p h. encode-lower p h.1;
  make-string = λ p h. rw (hex_decode-encode p h.1) (in_size-ok p h.0);
  make_hash-self = in_size-ok;
}

abbrev pub proof : Bytes
proof = replicate 32 7

pub proof-IsPreimage : IsPreimage proof
proof-IsPreimage = (refl, omega arith)

abbrev pub small : Toy
small = record { key = 1 ∷ []; id = 2 ∷ []; caveats = [] }

abbrev pub marshaled : Toy → Bytes
marshaled m = elim (toy_marshal m) [ ok b ↦ b | err e ↦ [] ]

pub marshal-marshaled : (m : Toy) → toy_marshal m ≡ ok (marshaled m)
unfolding toy_marshal
marshal-marshaled m = refl

abbrev pub sent : Header
sent = written toys toy_ln toys-IsMacaroonLib toy_ln-IsLntypes [] (marshaled small) proof

pub from-set_header_again : from_header toys toy_ln sent ≡ ok (small, proof)
from-set_header_again =
    from_header-values toys toy_ln toys-IsMacaroonLib toy_ln-IsLntypes sent small proof
      (marshaled small) proof-IsPreimage (marshal-marshaled small)
      (written-values toys toy_ln toys-IsMacaroonLib toy_ln-IsLntypes [] (marshaled small) proof)

abbrev checker : InvoiceChecker Secrets
checker = record { verify_invoice_settled = λ st hash. ok tt }

abbrev pub paid_config : Config Secrets
paid_config = record config { new_challenge = λ price. ok (codes "lnbc", proof) }

abbrev pub bought : Result (Toy × Bytes) × Secrets
bought = mint_l402 toys paid_config [] services

abbrev pub bought_mac : Toy
bought_mac = elim (bought.0) [ ok (m, r) ↦ m | err e ↦ small ]

pub bought_allowed : Allows paid_config services (codes "loop") later
bought_allowed = record {
  capabilities = loop_allowed.capabilities;
  constraints = loop_allowed.constraints;
  timeouts = loop_allowed.timeouts;
  capabilities_ok = loop_allowed.capabilities_ok;
  constraints_ok = loop_allowed.constraints_ok;
  timeouts_ok = loop_allowed.timeouts_ok;
  readable = loop_allowed.readable;
  no_services = loop_allowed.no_services;
  in_time = loop_allowed.in_time;
}

abbrev pub paid_with : Header
paid_with = written toys toy_ln toys-IsMacaroonLib toy_ln-IsLntypes [] (marshaled bought_mac) proof

accept-mint_l402_example :
    accept_l402 toys toy_ln
      (minter_of toys (record paid_config { now = later }))
      checker
      bought.1
      paid_with
      (codes "loop")
    ≡ true
unfolding runs
accept-mint_l402_example =
    accept-mint_l402 toys toy_ln toys-IsMacaroonLib toy_ln-IsLntypes checker paid_config
      toy_store-IsSecretStore (λ m. Perm.refl m) [] bought.1 services bought_mac (codes "lnbc")
      proof (replicate 32 7) (codes "loop") later [] paid_with refl refl refl refl refl
      (omega arith) (inl refl) bought_allowed proof-IsPreimage
      (set_header-ok toys toy_ln toys-IsMacaroonLib toy_ln-IsLntypes [] bought_mac proof
        (marshaled bought_mac) (marshal-marshaled bought_mac))
      refl

abbrev arrived : Metadata
arrived = record { get = λ name. values name paid_with }

abbrev call : Context
call = record { incoming = some arrived; bound = [] }

from_context-mint_example :
    (serve_unary toys toy_ln call tt (λ c u. from_context c key_token_id) ≡ some (replicate 32 7))
    × (serve_stream toys toy_ln call tt (λ c u. from_context c key_token_id)
        ≡ some (replicate 32 7))
unfolding runs
from_context-mint_example =
    from_context-mint toys toy_ln toys-IsMacaroonLib toy_ln-IsLntypes paid_config [] bought.1
      services bought_mac (codes "lnbc") proof proof (replicate 32 7) [] paid_with arrived call refl
      refl refl refl refl proof-IsPreimage
      (set_header-ok toys toy_ln toys-IsMacaroonLib toy_ln-IsLntypes [] bought_mac proof
        (marshaled bought_mac) (marshal-marshaled bought_mac))
      refl refl

-- A valid value that stands in front of another one is not read.
abbrev twice : Header
twice =
    (
      header_authorization,
      auth_value (codes "L402") (codes "YQ==") (hex_encode proof) ∷ (codes "other" ∷ []),
    )
    ∷ []

from_header-last_example :
    from_header toys toy_ln twice ≡ from_header toys toy_ln (only (codes "other"))
unfolding values lookup bytes_eq
from_header-last_example =
    from_header-last toys toy_ln twice (auth_value (codes "L402") (codes "YQ==") (hex_encode proof))
      (codes "other") [] (λ h. absurd (cc h)) refl
