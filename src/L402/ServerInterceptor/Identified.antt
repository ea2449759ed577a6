-- ===== src/L402/ServerInterceptor/Identified.antt =====
-- The handler of a gRPC call finds the token id of the L402 that the call carries.
use aperture.Prelude.{
  ◌≡◌, ◌∙◌, sym, ap, subst, refl, List, Bytes, bytes_eq, length, some, ok, arith,
}
use aperture.Go.Maps.{lookup}
use aperture.Go.HttpHeader.{Header, values}
use aperture.L402.Macaroon.{MacaroonLib, IsMacaroonLib}
use aperture.L402.Lntypes.{Lntypes, IsLntypes, IsPreimage}
use aperture.L402.Header.{header_authorization, from_header, set_header}
use aperture.L402.Header.RoundTrip.{set_header-values, from_header-values}
use aperture.L402.Identifier.{Identifier, decode_identifier}
use aperture.L402.Service.{Service}
use aperture.Mint.{maximum_price, Config, mint_l402}
use aperture.Mint.Minted.{mint-IsMinted, bake-limits, bake-IsBaked}
use aperture.Mint.Fresh.{minted_identifier}
use aperture.L402.ServerInterceptor.{
  Metadata, Context, key_token_id, from_context, add_to_context, header_of, token_from_context,
  identified, serve_unary, serve_stream,
}

header_of-values :
    (md : Metadata) → values header_authorization (header_of md) ≡ md.get header_authorization
unfolding values lookup bytes_eq
header_of-values md = refl

from-add_to_context :
    (ctx : Context) (token : Bytes)
    → from_context (add_to_context ctx key_token_id token) key_token_id ≡ some token
unfolding from_context add_to_context lookup bytes_eq
from-add_to_context ctx token = refl

module _ {S : Type 0} (lib : MacaroonLib) (ln : Lntypes) (laws : IsMacaroonLib lib)
    (hex : IsLntypes ln) (cfg : Config S) where
  -- The identifier of a minted macaroon names the token.
  mint-token_id :
      (st st' : S) (services : List Service) (mac : lib.Macaroon) (request hash token_id : Bytes)
      → mint_l402 lib cfg st services ≡ (ok (mac, request), st')
      → cfg.new_challenge (maximum_price services) ≡ ok (request, hash)
      → cfg.random_id ≡ ok token_id
      → length token_id ≡ 32
      → length hash ≡ 32
      → (i : Identifier) × (decode_identifier (lib.id mac) ≡ ok i) × (i.token_id ≡ token_id)
  mint-token_id st st' services mac request hash token_id minted paid random t h =
      let m = mint-IsMinted lib laws cfg st st' services mac request minted in
      let (cs, limited) = bake-limits lib laws cfg m.secret m.id services mac m.baked in
      let b = bake-IsBaked lib laws cfg m.secret m.id services cs mac limited m.baked in
      let same : m.payment_hash ≡ hash = ground (arith, m.challenged) in
      let (i, decoded, names_hash, names_token) =
        minted_identifier cfg.random_id token_id m.payment_hash m.id random t
          (subst (λ b. length b ≡ 32) (sym same) h) m.identified in
      (i, subst (λ x. decode_identifier x ≡ ok i) (sym b.named) decoded, names_token)

  token_from_context-mint :
      (ctx : Context) (md : Metadata) (mac : lib.Macaroon) (preimage : Bytes) (h h' : Header)
      (i : Identifier)
      → ctx.incoming ≡ some md
      → md.get header_authorization ≡ values header_authorization h'
      → set_header lib ln h mac preimage ≡ ok h'
      → IsPreimage preimage
      → decode_identifier (lib.id mac) ≡ ok i
      → token_from_context lib ln ctx ≡ ok i.token_id
  unfolding token_from_context
  token_from_context-mint ctx md mac preimage h h' i came carried written p decoded =
      let (b, marshaled, vs) = set_header-values lib ln laws hex h mac preimage h' written in
      let read : from_header lib ln (header_of md) ≡ ok (mac, preimage) =
        from_header-values lib ln laws hex (header_of md) mac preimage b p marshaled
          (header_of-values md ∙ (carried ∙ vs)) in
      rw (came, read, decoded) refl

  -- A client that sends the macaroon that was minted for it and a preimage of 32 bytes, as
  -- SetHeader writes them, in the authorization field of a call's metadata is known to the handler
  -- of the call, unary or stream, which finds the token id of the minting in its context.
  pub from_context-mint :
      (st st' : S) (services : List Service) (mac : lib.Macaroon)
      (request hash preimage token_id : Bytes) (h h' : Header) (md : Metadata) (ctx : Context)
      → mint_l402 lib cfg st services ≡ (ok (mac, request), st')
      → cfg.new_challenge (maximum_price services) ≡ ok (request, hash)
      → cfg.random_id ≡ ok token_id
      → length token_id ≡ 32
      → length hash ≡ 32
      → IsPreimage preimage
      → set_header lib ln h mac preimage ≡ ok h'
      → ctx.incoming ≡ some md
      → md.get header_authorization ≡ values header_authorization h'
      → (serve_unary lib ln ctx tt (λ c u. from_context c key_token_id) ≡ some token_id)
        × (serve_stream lib ln ctx tt (λ c u. from_context c key_token_id) ≡ some token_id)
  unfolding serve_unary serve_stream
  from_context-mint st st' services mac request hash preimage token_id h h' md ctx minted paid
        random t s p written came carried =
      let (i, decoded, same) =
        mint-token_id st st' services mac request hash token_id minted paid random t s in
      let token : token_from_context lib ln ctx ≡ ok token_id =
        token_from_context-mint ctx md mac preimage h h' i came carried written p decoded
        ∙ ap ok same in
      let known : from_context (identified lib ln ctx (token_from_context lib ln ctx)) key_token_id
          ≡ some token_id =
        ap (λ r. from_context (identified lib ln ctx r) key_token_id) token
        ∙ from-add_to_context ctx token_id in
      (known, known)
