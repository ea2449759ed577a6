-- ===== src/L402/Header/RoundTrip.antt =====
-- SetHeader and FromHeader of l402/header.go against each other.
use aperture.Prelude.{
  sym, bytes_eq, ◌≢◌, Result-cases, ◌≡◌, refl, true, [], ◌∷◌, ◌++◌, ap, ◌∙◌, Result-cases, is_ok,
  is_err, Bytes, codes, none, ok, arith,
}
use aperture.Go.Base64.{encode-IsClean, base64_decode-encode, base64_encode}
use aperture.Go.Hex.{hex_encode, hex_decode-encode}
use aperture.Go.HttpHeader.{Header, get, values, set, add, values-set, values-add}
use aperture.L402.Macaroon.{MacaroonLib, IsMacaroonLib}
use aperture.L402.Lntypes.{Lntypes, IsLntypes, IsPreimage}
use aperture.L402.Caveat.{encode_caveat, preimage_key}
use aperture.L402.Caveat.Lookup.{has_caveat-add}
use aperture.L402.Header.{
  is_given, header_authorization, header_macaroon_md, from_header, from_authorization,
  from_macaroon, set_header, auth_value,
}
use aperture.L402.Header.Scan.{find_auth-current, match_values-last}

given : (b : Bytes) → b ≢ [] → is_given (hex_encode b) ≡ true
unfolding hex_encode
given [] h = absurd (h refl)
given (c ∷ b) h = refl

module _ (lib : MacaroonLib) (ln : Lntypes) (laws : IsMacaroonLib lib) (hex : IsLntypes ln) where
  -- The header that SetHeader makes of a written macaroon.
  abbrev pub written : Header → Bytes → Bytes → Header
  written h b p =
      add header_authorization (auth_value (codes "L402") (base64_encode b) (ln.preimage_string p))
        (set header_authorization
          (auth_value (codes "LSAT") (base64_encode b) (ln.preimage_string p)) h)

  pub written-values :
      (h : Header) (b p : Bytes)
      → values header_authorization (written h b p)
        ≡ (auth_value (codes "LSAT") (base64_encode b) (ln.preimage_string p) ∷ [])
          ++ auth_value (codes "L402") (base64_encode b) (ln.preimage_string p) ∷ []
  unfolding values bytes_eq
  written-values h b p =
      let value = auth_value (codes "LSAT") (base64_encode b) (ln.preimage_string p) in
      (values-add header_authorization header_authorization
        (auth_value (codes "L402") (base64_encode b) (ln.preimage_string p))
        (set header_authorization value h))
      ∙ (ap (λ vs. vs ++ auth_value (codes "L402") (base64_encode b) (ln.preimage_string p) ∷ [])
          (values-set header_authorization header_authorization value h))

  -- A header with the two values of a macaroon and a preimage is read as these.
  pub from_header-values :
      (h : Header) (m : lib.Macaroon) (p b : Bytes)
      → IsPreimage p
      → lib.marshal_binary m ≡ ok b
      → values header_authorization h
        ≡ (auth_value (codes "LSAT") (base64_encode b) (ln.preimage_string p) ∷ [])
          ++ auth_value (codes "L402") (base64_encode b) (ln.preimage_string p) ∷ []
      → from_header lib ln h ≡ ok (m, p)
  unfolding from_header get from_authorization
  from_header-values h m p b k e v =
      let found =
        match_values-last none
          (auth_value (codes "LSAT") (base64_encode b) (ln.preimage_string p) ∷ [])
          (auth_value (codes "L402") (base64_encode b) (ln.preimage_string p))
        ∙ (find_auth-current (base64_encode b) (ln.preimage_string p)
            (encode-IsClean b (laws.marshal-AreBytes m b e))
            (hex.string_length p k, hex.string_hex p k)) in
      rw
        (
          v,
          found,
          base64_decode-encode b (laws.marshal-AreBytes m b e),
          laws.unmarshal-marshal m b e,
          hex.make-string p k,
        )
        refl

  pub set_header-ok :
      (h : Header) (m : lib.Macaroon) (p b : Bytes)
      → lib.marshal_binary m ≡ ok b
      → set_header lib ln h m p ≡ ok (written h b p)
  unfolding set_header
  set_header-ok h m p b e = rw e refl

  -- The values that SetHeader leaves in the field.
  pub set_header-values :
      (h : Header) (m : lib.Macaroon) (p : Bytes) (h' : Header)
      → set_header lib ln h m p ≡ ok h'
      → (b : Bytes) × (lib.marshal_binary m ≡ ok b)
        × (values header_authorization h'
            ≡ (auth_value (codes "LSAT") (base64_encode b) (ln.preimage_string p) ∷ [])
              ++ auth_value (codes "L402") (base64_encode b) (ln.preimage_string p) ∷ [])
  unfolding set_header
  set_header-values h m p h' s = elim (Result-cases (lib.marshal_binary m)) [
    | is_ok b e ↦
        let out : written h b p ≡ h' = ground (arith, e, s) in
        (b, e, ap (values header_authorization) (sym out) ∙ written-values h b p)
    | is_err f e ↦ absurd (ground (arith, e, s))
  ]

  -- What SetHeader writes, FromHeader reads back: the same macaroon and the same preimage, for
  -- every header before and every preimage of 32 bytes.
  pub from-set_header :
      (h : Header) (m : lib.Macaroon) (p : Bytes) (h' : Header)
      → IsPreimage p
      → set_header lib ln h m p ≡ ok h'
      → from_header lib ln h' ≡ ok (m, p)
  from-set_header h m p h' k s =
      let (b, e, v) = set_header-values h m p h' s in from_header-values h' m p b k e v

  -- A header that holds no Authorization field and the hexadecimal text of a macaroon, whose last
  -- caveat is the preimage, gives this macaroon and this preimage.
  pub from_header-hex :
      (h : Header) (m n : lib.Macaroon) (p b : Bytes)
      → IsPreimage p
      → lib.add_first_party_caveat m
          (encode_caveat (record { condition = preimage_key; value = ln.preimage_string p }))
        ≡ ok n
      → lib.marshal_binary n ≡ ok b
      → values header_authorization h ≡ []
      → get header_macaroon_md h ≡ hex_encode b
      → from_header lib ln h ≡ ok (n, p)
  unfolding from_header get from_macaroon bytes_eq
  from_header-hex h m n p b k a e v g =
      let found =
        has_caveat-add lib laws m n
          (record { condition = preimage_key; value = ln.preimage_string p }) preimage_key
          (omega arith) a in
      rw
        (
          v,
          g,
          given b (λ z. laws.marshal-ne n (e ∙ ap ok z)),
          hex_decode-encode b (laws.marshal-AreBytes n b e),
          laws.unmarshal-marshal n b e,
          found,
          hex.make-string p k,
        )
        refl
