-- ===== src/L402/Interceptor/Spent.antt =====
-- What one call through l402/client_interceptor.go can cost.
use aperture.Prelude.{
  ℕ, ◌+◌, ◌≤◌, ◌≡◌, ◌∙◌, sym, ap, refl, false, List, [], ◌∷◌, Bytes, Option, none, some,
  Option-cases, inl, inr, Bool-cases, Result, ok, err, Result-cases, is_ok, is_err, ℤ, arith,
}
use aperture.Go.Base64.{base64_decode}
use aperture.L402.Macaroon.{MacaroonLib}
use aperture.L402.Lntypes.{Lntypes}
use aperture.L402.Token.{Token, token_from_challenge, is_pending}
use aperture.L402.Interceptor.{
  Store, PayReq, Payment, paid, pay_failed, pay_timed_out, Tracked, succeeded, in_flight, failed,
  other_state, track_error, Outside, msat, too_expensive, find_challenge, read_challenge,
  finish_payment, pay_l402_token, track, track_payment, is_terminal, after_track, obtain_token,
  add_credentials, new_intercept_context, call_again, unary_interceptor, is_payment_required,
}

abbrev milli_sats : Option ℕ → ℕ
milli_sats none = 0
milli_sats (some amount) = amount

cheap : (o : Option ℕ) (max : ℕ) → too_expensive o max ≡ false → milli_sats o ≤ max
cheap none max h = omega arith
cheap (some n) max h = ground (arith, h)

-- What an invoice asks for, in millisatoshis; lnd refuses to pay an invoice without an amount.
abbrev pub amount_of : Result PayReq → ℕ
amount_of (err e) = 0
amount_of (ok invoice) = milli_sats invoice.milli_sat

-- A measure of what is spent, which only payments raise: each by the amount of its invoice and the
-- maximum fee at most.
pub record IsSpent {W : Type 0} {lib : MacaroonLib} (store : Store lib W) (outside : Outside lib W)
    (spent : W → ℕ) : Type 0 where
  pub store_free : (w : W) (t : Token lib) → spent (store.store_token w t).1 ≡ spent w
  pub remove_free : (w : W) → spent (store.remove_pending_token w).1 ≡ spent w
  pub track_free : (w : W) (hash : Bytes) → spent (outside.track_payment w hash).1 ≡ spent w
  pub invoke_free : (w : W) (opts : List lib.Macaroon) → spent (outside.invoke w opts).1 ≡ spent w
  pub pay_capped :
      (w : W) (invoice : Bytes) (fee : ℤ)
      → spent (outside.pay_invoice w invoice fee).1
        ≤ spent w + (amount_of (outside.decode_invoice invoice) + msat fee)

module _ {W : Type 0} (lib : MacaroonLib) (ln : Lntypes) (store : Store lib W)
    (outside : Outside lib W) (max_cost max_fee : ℤ) (spent : W → ℕ)
    (laws : IsSpent store outside spent) where
  -- A challenge that may be paid asks for the maximum cost at most.
  read_challenge-cheap :
      (now : ℤ) (headers : List Bytes) (token : Token lib) (invoice : Bytes)
      → read_challenge lib ln store outside max_cost max_fee now headers ≡ ok (token, invoice)
      → amount_of (outside.decode_invoice invoice) ≤ msat max_cost
  unfolding read_challenge
  read_challenge-cheap now headers token invoice h =
      elim (Option-cases (find_challenge outside.match_challenge headers)) [
        | inl n ↦ absurd (ground (arith, n, h))
        | inr (m, e) ↦ elim (Result-cases (base64_decode m.0)) [
          | is_err f k ↦ absurd (ground (arith, e, k, h))
          | is_ok mac k ↦ elim (Result-cases (outside.decode_invoice m.1)) [
            | is_err f q ↦ absurd (ground (arith, e, k, q, h))
            | is_ok inv q ↦ elim (Bool-cases (too_expensive inv.milli_sat (msat max_cost))) [
              | inl y ↦ absurd (ground (arith, e, k, q, y, h))
              | inr n ↦ elim (Result-cases (token_from_challenge lib ln now mac inv.payment_hash)) [
                | is_err f u ↦ absurd (ground (arith, e, k, q, n, u, h))
                | is_ok tok u ↦
                    let same : m.1 ≡ invoice = ground (arith, e, k, q, n, u, h) in
                    let asks : amount_of (outside.decode_invoice invoice)
                        ≡ milli_sats inv.milli_sat =
                      ap (λ i. amount_of (outside.decode_invoice i)) (sym same) ∙ ap amount_of q in
                    omega (arith, asks, cheap inv.milli_sat (msat max_cost) n)
              ]
            ]
          ]
        ]
      ]

  finish_payment-free :
      (token : Token lib) (p : Payment) (w : W)
      → spent (finish_payment lib ln store outside max_cost max_fee token p w).1 ≡ spent w
  unfolding finish_payment
  finish_payment-free token (paid preimage amount fee) w = laws.store_free w _
  finish_payment-free token (pay_failed e) w = refl
  finish_payment-free token pay_timed_out w = refl

  track-free :
      (token : Token lib) (us : List Tracked) (w : W)
      → spent (track lib ln store outside max_cost max_fee token us w).1 ≡ spent w
  unfolding track
  track-free token [] w = refl
  track-free token (succeeded preimage value fee ∷ us) w = laws.store_free w _
  track-free token (in_flight ∷ us) w = track-free token us w
  track-free token (failed ∷ us) w = refl
  track-free token (other_state ∷ us) w = refl
  track-free token (track_error ∷ us) w = refl

  track_payment-free :
      (token : Token lib) (w : W)
      → spent (track_payment lib ln store outside max_cost max_fee token w).1 ≡ spent w
  unfolding track_payment
  track_payment-free token w = elim (Result-cases (outside.track_payment w token.payment_hash).0) [
    | is_err e k ↦ rw (k, track_payment) (laws.track_free w token.payment_hash)
    | is_ok us k ↦
        rw (k, track_payment)
          (track-free token us (outside.track_payment w token.payment_hash).1
            ∙ laws.track_free w token.payment_hash)
  ]

  -- At most the maximum cost and the maximum fee.
  abbrev pub IsCapped : W → W → Type 0
  IsCapped w w' = spent w' ≤ spent w + (msat max_cost + msat max_fee)

  pay_l402_token-IsCapped :
      (now : ℤ) (headers : List Bytes) (w : W)
      → IsCapped w (pay_l402_token lib ln store outside max_cost max_fee now headers w).1
  unfolding pay_l402_token
  pay_l402_token-IsCapped now headers w =
      elim (Result-cases (read_challenge lib ln store outside max_cost max_fee now headers)) [
        | is_err e k ↦ rw (k, pay_l402_token) (omega arith)
        | is_ok c k ↦
            let w1 : W = (store.store_token w c.0).1 in
            let kept : spent w1 ≡ spent w = laws.store_free w c.0 in
            elim (Result-cases (store.store_token w c.0).0) [
              | is_err e q ↦ rw (k, q, pay_l402_token) (omega (arith, kept))
              | is_ok u q ↦
                  let p : Payment × W = outside.pay_invoice w1 c.1 max_fee in
                  rw (k, q, pay_l402_token)
                    (omega (
                      arith,
                      kept,
                      laws.pay_capped w1 c.1 max_fee,
                      finish_payment-free c.0 p.0 p.1,
                      read_challenge-cheap now headers c.0 c.1 k,
                    ))
            ]
      ]

  after_track-IsCapped :
      (now : ℤ) (headers : List Bytes) (r : Result (Token lib)) (w : W)
      → IsCapped w (after_track lib ln store outside max_cost max_fee now headers (r, w)).1
  unfolding after_track
  after_track-IsCapped now headers (ok token) w = omega arith
  after_track-IsCapped now headers (err e) w = elim (Bool-cases (is_terminal e)) [
    | inr n ↦ rw (n, after_track) (omega arith)
    | inl y ↦
        let w1 : W = (store.remove_pending_token w).1 in
        let kept : spent w1 ≡ spent w = laws.remove_free w in
        elim (Result-cases (store.remove_pending_token w).0) [
          | is_err f k ↦ rw (y, k, after_track) (omega (arith, kept))
          | is_ok u k ↦
              rw (y, k, after_track) (omega (arith, kept, pay_l402_token-IsCapped now headers w1))
        ]
  ]

  obtain_token-IsCapped :
      (now : ℤ) (headers : List Bytes) (o : Option (Token lib)) (w : W)
      → IsCapped w (obtain_token lib ln store outside max_cost max_fee now headers o w).1
  unfolding obtain_token
  obtain_token-IsCapped now headers none w = pay_l402_token-IsCapped now headers w
  obtain_token-IsCapped now headers (some token) w = elim (Bool-cases (is_pending lib ln token)) [
    | inr n ↦ rw (n, obtain_token) (omega arith)
    | inl y ↦
        let p : Result (Token lib) × W =
          track_payment lib ln store outside max_cost max_fee token w in
        rw (y, obtain_token)
          (omega (arith, track_payment-free token w, after_track-IsCapped now headers p.0 p.1))
  ]

  call_again-free :
      (opts : List lib.Macaroon) (r : Result (Token lib)) (w : W)
      → spent (call_again lib ln store outside max_cost max_fee opts (r, w)).1 ≡ spent w
  unfolding call_again
  call_again-free opts (err e) w = refl
  call_again-free opts (ok token) w =
      elim (Result-cases (add_credentials lib ln store outside max_cost max_fee token opts)) [
        | is_err e k ↦ rw (k, call_again) refl
        | is_ok os k ↦ rw (k, call_again) (laws.invoke_free w os)
      ]

  -- One call of the client spends at most the maximum cost and the maximum routing fee, whatever
  -- the server answers, and whatever has come of earlier payments: payments are the only thing
  -- that spends, each at most the amount of its invoice and the maximum fee.
  pub unary_interceptor-IsCapped :
      (now : ℤ) (w : W)
      → IsCapped w (unary_interceptor lib ln store outside max_cost max_fee now w).1
  unfolding unary_interceptor
  unary_interceptor-IsCapped now w =
      elim (Result-cases (new_intercept_context lib ln store outside max_cost max_fee w)) [
        | is_err e k ↦ rw (k, unary_interceptor) (omega arith)
        | is_ok c k ↦
            let w1 : W = (outside.invoke w c.1).1 in
            let kept : spent w1 ≡ spent w = laws.invoke_free w c.1 in
            let headers : List Bytes = (outside.invoke w c.1).0.1 in
            elim (Bool-cases (is_payment_required (outside.invoke w c.1).0.0)) [
              | inr n ↦ rw (k, n, unary_interceptor) (omega (arith, kept))
              | inl y ↦
                  let p : Result (Token lib) × W =
                    obtain_token lib ln store outside max_cost max_fee now headers c.0 w1 in
                  rw (k, y, unary_interceptor)
                    (omega (
                      arith,
                      kept,
                      obtain_token-IsCapped now headers c.0 w1,
                      call_again-free c.1 p.0 p.1,
                    ))
            ]
      ]
