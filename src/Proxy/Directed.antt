-- ===== src/Proxy/Directed.antt =====
-- The header with which the director of proxy/proxy.go sends a request on.
use aperture.Prelude.{
  ℕ, ◌≡◌, ◌≢◌, refl, ap, ◌∙◌, List, [], ◌∷◌, Bytes, bytes_eq_iff, some, ok, All, Result-cases,
  is_ok, is_err, arith,
}
use aperture.Go.HttpHeader.{Header, values, add, values-add, canonical}
use aperture.L402.Macaroon.{MacaroonLib, IsMacaroonLib}
use aperture.L402.Lntypes.{Lntypes, IsLntypes, IsPreimage}
use aperture.L402.Header.{header_authorization, from_header, set_header}
use aperture.L402.Header.RoundTrip.{from_header-values, set_header-values}
use aperture.Proxy.Backend.{ProxyService, Request, Regexps}
use aperture.Proxy.{add_fields, standard_header, match_service, director}

-- The configured fields leave the credentials alone.
abbrev pub SparesAuthorization : List (Bytes × Bytes) → Type 0
SparesAuthorization = All (λ f. canonical f.0 ≢ header_authorization)

add_fields-values :
    (fields : List (Bytes × Bytes)) (h : Header)
    → SparesAuthorization fields
    → values header_authorization (add_fields fields h) ≡ values header_authorization h
unfolding add_fields
add_fields-values [] h s = refl
add_fields-values ((name, value) ∷ fields) h s =
    add_fields-values fields (add (canonical name) value h) s.1
    ∙ ground (
      arith,
      values-add (canonical name) header_authorization value h,
      bytes_eq_iff (canonical name) header_authorization,
      s.0,
    )

module _ {D : Type 0} (lib : MacaroonLib) (ln : Lntypes) (laws : IsMacaroonLib lib)
    (hex : IsLntypes ln) where
  -- A request that matches a service is sent to the address and with the protocol of that service,
  -- which is also its Host, and whatever form its credentials had, the service reads the same
  -- macaroon and preimage from the request that it gets: if the macaroon can be written, the
  -- preimage has 32 bytes, and no field that the service is configured with is the Authorization
  -- field in any spelling.
  pub director-from_header :
      (regexps : Regexps) (services : List (ProxyService D)) (req out : Request) (n : ℕ)
      (s : ProxyService D) (mac : lib.Macaroon) (preimage b : Bytes)
      → match_service regexps req services ≡ ok (some (n, s))
      → from_header lib ln req.header ≡ ok (mac, preimage)
      → lib.marshal_binary mac ≡ ok b
      → IsPreimage preimage
      → SparesAuthorization s.headers
      → director lib ln regexps services req ≡ ok out
      → (out.url_host ≡ s.address)
        × (out.url_scheme ≡ s.protocol)
        × (out.host ≡ s.address)
        × (from_header lib ln out.header ≡ ok (mac, preimage))
  unfolding director standard_header set_header
  director-from_header regexps services req out n s mac preimage b m r w p spares d =
      elim (Result-cases (set_header lib ln req.header mac preimage)) [
        | is_err e k ↦ absurd (ground (arith, k, w))
        | is_ok h k ↦
            let (c, e, v) = set_header-values lib ln laws hex req.header mac preimage h k in
            let sent : out.header ≡ add_fields s.headers h = ground (arith, m, r, k, d) in
            (
              ground (arith, m, r, k, d),
              ground (arith, m, r, k, d),
              ground (arith, m, r, k, d),
              ap (from_header lib ln) sent
                  ∙ from_header-values lib ln laws hex (add_fields s.headers h) mac preimage c p e
                      (add_fields-values s.headers h spares ∙ v),
            )
      ]
