-- ===== src/L402/ServerInterceptor.antt =====
-- l402/server_interceptor.go and l402/context.go: a gRPC server that reads the token id of a call.
-- The metadata of a call is a parameter, through its Get; a handler is a function of the context.
pub mod Identified
use aperture.Prelude.{
  List, [], ◌∷◌, Bytes, codes, take, Option, none, some, or_err, fail, Result, ok, err, ◌>>=◌,
}
use aperture.Go.Maps.{lookup}
use aperture.Go.HttpHeader.{Header}
use aperture.L402.Macaroon.{MacaroonLib}
use aperture.L402.Lntypes.{Lntypes}
use aperture.L402.Header.{header_authorization, from_header}
use aperture.L402.Identifier.{decode_identifier}

-- ContextKey
pub record ContextKey : Type 0 where
  pub name : Bytes

-- KeyTokenID
abbrev pub key_token_id : ContextKey
key_token_id = record { name = codes "tokenid" }

-- metadata.MD
pub record Metadata : Type 0 where
  pub get : Bytes → List Bytes

-- A context with the metadata of an incoming call and the values by the names of their keys
pub record Context : Type 0 where
  pub incoming : Option Metadata
  pub bound : List (Bytes × Bytes)

-- FromContext
unfoldable pub from_context : Context → ContextKey → Option Bytes
from_context ctx key = lookup key.name ctx.bound

-- AddToContext: the value hides an earlier one of the same key.
unfoldable pub add_to_context : Context → ContextKey → Bytes → Context
add_to_context ctx key value = record ctx { bound = (key.name, value) ∷ ctx.bound }

-- The http.Header of the authorization values
abbrev pub header_of : Metadata → Header
header_of md = (header_authorization, md.get header_authorization) ∷ []

module _ (lib : MacaroonLib) (ln : Lntypes) where
  -- tokenFromContext
  unfoldable pub token_from_context : Context → Result Bytes
  token_from_context ctx = do
    md ← or_err ctx.incoming fail
    (macaroon, preimage) ← from_header lib ln (header_of md)
    identifier ← decode_identifier (lib.id macaroon)
    ok identifier.token_id

  abbrev pub identified : Context → Result Bytes → Context
  identified ctx (err e) = ctx
  identified ctx (ok token) = add_to_context ctx key_token_id token

  -- UnaryInterceptor of ServerInterceptor
  unfoldable pub serve_unary {ℓ} :
      {Req : Type 0} {Resp : Type ℓ} → Context → Req → (Context → Req → Resp) → Resp
  unfolding token_from_context
  serve_unary ctx req handler = handler (identified ctx (token_from_context ctx)) req

  -- StreamInterceptor of ServerInterceptor, where a handler takes the context of the stream, which
  -- a wrapped stream overwrites, and the rest of it.
  unfoldable pub serve_stream {ℓ} :
      {Stream : Type 0} {Resp : Type ℓ} → Context → Stream → (Context → Stream → Resp) → Resp
  unfolding token_from_context
  serve_stream ctx ss handler = handler (identified ctx (token_from_context ctx)) ss
