-- ===== src/L402/Token/Failed.antt =====
-- The errors of deserializeToken in l402/token.go.
use aperture.Prelude.{
  ℕ, ◌≡◌, ◌≢◌, refl, Bytes, length, length-take, [], ◌∷◌, Result, ok, err, err_no_token, ◌>>=◌, ℤ,
  arith, Result-cases,
}
use aperture.Go.Binary.{read_full, read_uint}
use aperture.L402.Macaroon.{MacaroonLib}
use aperture.L402.Lntypes.{Lntypes, IsLntypes}
use aperture.L402.Token.{◌∷◌, token_from_challenge, deserialize_token}

read_full-ne : (n : ℕ) (s : Bytes) → read_full n s ≢ err err_no_token
unfolding read_full
read_full-ne n [] = ground arith
read_full-ne n (c ∷ s) = ground arith

read_uint-ne : (n : ℕ) (s : Bytes) → read_uint n s ≢ err err_no_token
unfolding read_uint
read_uint-ne n s = ground (arith, read_full-ne n s, Result-cases (read_full n s))

read_full-length : (n : ℕ) (s x r : Bytes) → read_full n s ≡ ok (x, r) → length x ≡ n
unfolding read_full
read_full-length n [] x r e = ground (arith, length-take {A = ℕ} n [])
read_full-length n (c ∷ s) x r e = ground (arith, length-take n (c ∷ s))

module _ {ℓ κ} {V : Type ℓ} {W : Type κ} where
  >>=-ne :
      (m : Result V) (rest : V → Result W)
      → m ≢ err err_no_token
      → ((v : V) → m ≡ ok v → rest v ≢ err err_no_token)
      → (m >>= rest) ≢ err err_no_token
  >>=-ne (ok v) rest h k = k v refl
  >>=-ne (err e) rest h k = λ q. h (cc q)

module _ (lib : MacaroonLib) (ln : Lntypes) (hex : IsLntypes ln) where
  challenge-ne :
      (now : ℤ) (mac hash : Bytes)
      → length hash ≡ 32
      → token_from_challenge lib ln now mac hash ≢ err err_no_token
  unfolding token_from_challenge
  challenge-ne now mac hash h =
      ground (arith, Result-cases (lib.unmarshal_binary mac), hex.make_hash-self hash h)

  -- Whatever is read, the error is never the one that says that there is no token.
  pub deserialize_token-ne :
      (now : ℤ) (s : Bytes) → deserialize_token lib ln now s ≢ err err_no_token
  unfolding deserialize_token
  deserialize_token-ne now s = >>=-ne (read_uint 4 s) _ (read_uint-ne 4 s) (λ a e1.
      >>=-ne (read_full a.0 a.1) _ (read_full-ne a.0 a.1) (λ b e2.
        >>=-ne (read_full 32 b.1) _ (read_full-ne 32 b.1) (λ c e3.
          >>=-ne (token_from_challenge lib ln now b.0 c.0) _
            (challenge-ne now b.0 c.0 (read_full-length 32 b.1 c.0 c.1 e3))
            (λ t e4. >>=-ne (read_full 32 c.1) _ (read_full-ne 32 c.1) (λ d e5.
              >>=-ne (read_uint 8 d.1) _ (read_uint-ne 8 d.1) (λ f e6.
                >>=-ne (read_uint 8 f.1) _ (read_uint-ne 8 f.1)
                  (λ g e7. >>=-ne (read_uint 8 g.1) _ (read_uint-ne 8 g.1) (λ k e8. λ q. cc))))))))
