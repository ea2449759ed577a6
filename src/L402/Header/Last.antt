-- ===== src/L402/Header/Last.antt =====
-- Which Authorization value FromHeader of l402/header.go reads when there are several.
use aperture.Prelude.{
  sym, ◌≡◌, ◌≢◌, refl, ◌∙◌, List, [], ◌∷◌, ◌++◌, Bytes, bytes_eq, none, err, fail,
}
use aperture.Go.Maps.{lookup}
use aperture.Go.HttpHeader.{Header, values, get}
use aperture.L402.Macaroon.{MacaroonLib}
use aperture.L402.Lntypes.{Lntypes}
use aperture.L402.Header.{
  header_authorization, find_auth, match_values, from_authorization, from_header,
}
use aperture.L402.Header.Scan.{match_values-last}

-- A header with one Authorization value and no other field.
abbrev pub only : Bytes → Header
only v = (header_authorization, v ∷ []) ∷ []

module _ (lib : MacaroonLib) (ln : Lntypes) where
  from_authorization-last :
      (vs : List Bytes) (v : Bytes)
      → from_authorization lib ln (vs ++ v ∷ []) ≡ from_authorization lib ln (v ∷ [])
  unfolding from_authorization match_values
  from_authorization-last vs v = rw (match_values-last none vs v) refl

  from_header-given :
      (h : Header) (w : Bytes) (vs : List Bytes)
      → w ≢ []
      → values header_authorization h ≡ w ∷ vs
      → from_header lib ln h ≡ from_authorization lib ln (w ∷ vs)
  unfolding from_header get
  from_header-given h [] vs n e = absurd (n refl)
  from_header-given h (c ∷ w) vs n e = rw e refl

  only-values : (v : Bytes) → values header_authorization (only v) ≡ v ∷ []
  unfolding values lookup bytes_eq
  only-values v = refl

  -- An empty value is no token, and a header with nothing else has none.
  from_header-empty :
      (from_authorization lib ln ([] ∷ []) ≡ err fail) × (from_header lib ln (only []) ≡ err fail)
  unfolding from_authorization match_values find_auth from_header get values lookup bytes_eq
  from_header-empty = (refl, refl)

  -- When the first Authorization value is not empty, only the last one counts: FromHeader answers
  -- as it answers for a header with this value and nothing else, whatever the first and the other
  -- values are, and whatever other fields there are.
  pub from_header-last :
      (h : Header) (w v : Bytes) (vs : List Bytes)
      → w ≢ []
      → values header_authorization h ≡ (w ∷ vs) ++ v ∷ []
      → from_header lib ln h ≡ from_header lib ln (only v)
  from_header-last h w [] vs n e =
      from_header-given h w (vs ++ [] ∷ []) n e
      ∙ (from_authorization-last (w ∷ vs) [] ∙ (from_header-empty.0 ∙ sym from_header-empty.1))
  from_header-last h w (c ∷ v) vs n e =
      from_header-given h w (vs ++ (c ∷ v) ∷ []) n e
      ∙ (from_authorization-last (w ∷ vs) (c ∷ v)
          ∙ sym (
              from_header-given (only (c ∷ v)) (c ∷ v) [] (λ z. absurd (cc z))
                (only-values (c ∷ v))))
