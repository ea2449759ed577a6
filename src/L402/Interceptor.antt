-- ===== src/L402/Interceptor.antt =====
-- l402/client_interceptor.go: the client that pays when a call is answered with a challenge. The
-- token store, lnd and the server are parameters over one state of the world.
pub mod Spent
use aperture.Prelude.{
  ℕ, zero, suc, ◌+◌, ◌-◌, ◌*◌, ◌%◌, ◌^◌, Bool, true, false, not, ◌&&◌, ◌||◌, List, [], ◌∷◌, ◌++◌,
  if◌then◌else◌, ltb, Bytes, codes, Option, none, some, Error, fail, err_no_token,
  err_payment_failed_terminally, Result, ok, err, ◌>>=◌, ℤ, pos, negsuc,
}
use aperture.Go.Base64.{base64_decode}
use aperture.Go.Strings.{to_lower, contains_text}
use aperture.Go.Time.{to_uint64}
use aperture.L402.Macaroon.{MacaroonLib}
use aperture.L402.Lntypes.{Lntypes}
use aperture.L402.Token.{Token, token_from_challenge, paid_macaroon, is_pending}

-- The codes of a gRPC status that IsPaymentRequired tells apart.
pub data Code : Type 0 where
  internal unknown : Code
  other_code : ℕ → Code

-- The error of a call: none, one without a status, or a status with its code and message.
pub data CallError : Type 0 where
  call_ok : CallError
  no_status : CallError
  status : Code → Bytes → CallError

-- The Store interface, as far as the interceptor uses it
pub record Store (lib : MacaroonLib) (W : Type 0) : Type 0 where
  pub current_token : W → Result (Token lib)
  pub store_token : W → Token lib → Result (Unit {0}) × W
  pub remove_pending_token : W → Result (Unit {0}) × W

-- An invoice of zpay32, as far as it is read
pub record PayReq : Type 0 where
  pub milli_sat : Option ℕ
  pub payment_hash : Bytes

-- What comes of a payment: its preimage, amount and fee in satoshis, an error, or the end of one of
-- the two contexts.
pub data Payment : Type 0 where
  paid : Bytes → ℤ → ℤ → Payment
  pay_failed : Error → Payment
  pay_timed_out : Payment

-- What the tracking of a payment receives: a state, with the preimage, value and fee in
-- millisatoshis of one that succeeded, or an error.
pub data Tracked : Type 0 where
  succeeded : Bytes → ℕ → ℕ → Tracked
  in_flight : Tracked
  failed : Tracked
  other_state : Tracked
  track_error : Tracked

-- The calls of lnd, of zpay32, of the regular expression authHeaderRegex (its second and third
-- group), and of the server, which gets the macaroons of the credentials and answers with an error
-- and the values of the AuthHeader in its trailer.
pub record Outside (lib : MacaroonLib) (W : Type 0) : Type 0 where
  pub match_challenge : Bytes → Option (Bytes × Bytes)
  pub decode_invoice : Bytes → Result PayReq
  pub pay_invoice : W → Bytes → ℤ → Payment × W
  pub track_payment : W → Bytes → Result (List Tracked) × W
  pub invoke : W → List lib.Macaroon → (CallError × List Bytes) × W

-- GRPCErrMessage
abbrev pub grpc_err_message : Bytes
grpc_err_message = codes "payment required"

abbrev is_payment_code : Code → Bool
is_payment_code internal = true
is_payment_code unknown = true
is_payment_code (other_code n) = false

-- IsPaymentRequired
unfoldable pub is_payment_required : CallError → Bool
unfolding contains_text
is_payment_required call_ok = false
is_payment_required no_status = false
is_payment_required (status code message) =
    contains_text (to_lower message) grpc_err_message && is_payment_code code

-- lnwire.NewMSatFromSatoshis, in 64 bits
abbrev pub msat : ℤ → ℕ
msat (pos n) = to_uint64 (pos (n * 1000))
msat (negsuc n) = to_uint64 (negsuc (suc n * 1000 - 1))

-- The first header that matches
unfoldable pub find_challenge :
    (Bytes → Option (Bytes × Bytes)) → List Bytes → Option (Bytes × Bytes)
find_challenge match_challenge [] = none
find_challenge match_challenge (h ∷ hs) = elim (match_challenge h) [
  | some m ↦ some m
  | none ↦ find_challenge match_challenge hs
]

-- `invoice.MilliSat != nil && *invoice.MilliSat > maxCostMsat`
abbrev pub too_expensive : Option ℕ → ℕ → Bool
too_expensive none max = false
too_expensive (some amount) max = ltb max amount

-- What a call of the client ends in: the interceptor's own error, or the server's answer.
pub data Outcome : Type 0 where
  own_error : Error → Outcome
  answered : CallError → Outcome

abbrev pub is_terminal : Error → Bool
is_terminal err_payment_failed_terminally = true
is_terminal _ = false

module _ {W : Type 0} (lib : MacaroonLib) (ln : Lntypes) (store : Store lib W)
    (outside : Outside lib W) (max_cost max_fee : ℤ) where
  -- The token and the invoice of a challenge that may be paid, at the time `now`.
  unfoldable pub read_challenge : ℤ → List Bytes → Result (Token lib × Bytes)
  unfolding find_challenge
  read_challenge now headers = elim (find_challenge outside.match_challenge headers) [
    | none ↦ err fail
    | some (mac_base64, invoice_str) ↦ elim (base64_decode mac_base64) [
      | err e ↦ err fail
      | ok mac_bytes ↦ elim (outside.decode_invoice invoice_str) [
        | err e ↦ err fail
        | ok invoice ↦ elim (too_expensive invoice.milli_sat (msat max_cost)) [
          | true ↦ err fail
          | false ↦ elim (token_from_challenge lib ln now mac_bytes invoice.payment_hash) [
            | err e ↦ err fail
            | ok token ↦ ok (token, invoice_str)
          ]
        ]
      ]
    ]
  ]

  -- The token after the payment, which is stored again.
  unfoldable pub finish_payment : Token lib → Payment → W → Result (Token lib) × W
  finish_payment token (pay_failed e) w = (err e, w)
  finish_payment token pay_timed_out w = (err fail, w)
  finish_payment token (paid preimage amount fee) w =
      let token' = record token {
        preimage = preimage;
        amount_paid = msat amount;
        routing_fee_paid = msat fee;
      } in
      let (stored, w') = store.store_token w token' in (stored >>= (λ u. ok token'), w')

  -- payL402Token: the token is stored as a pending one before the payment.
  unfoldable pub pay_l402_token : ℤ → List Bytes → W → Result (Token lib) × W
  unfolding read_challenge finish_payment
  pay_l402_token now headers w = elim (read_challenge now headers) [
    | err e ↦ (err e, w)
    | ok (token, invoice_str) ↦
        let (stored, w') = store.store_token w token in
        elim stored [
          | err e ↦ (err fail, w')
          | ok u ↦
              let (payment, w'') = outside.pay_invoice w' invoice_str max_fee in
              finish_payment token payment w''
        ]
  ]

  -- The loop of trackPayment; when no conclusive state comes, the timeout ends it.
  unfoldable pub track : Token lib → List Tracked → W → Result (Token lib) × W
  track token [] w = (err fail, w)
  track token (succeeded preimage value fee ∷ rest) w =
      let token' = record token {
        preimage = preimage;
        amount_paid = value;
        routing_fee_paid = fee;
      } in
      let (stored, w') = store.store_token w token' in (stored >>= (λ u. ok token'), w')
  track token (in_flight ∷ rest) w = track token rest w
  track token (failed ∷ rest) w = (err err_payment_failed_terminally, w)
  track token (other_state ∷ rest) w = (err fail, w)
  track token (track_error ∷ rest) w = (err fail, w)

  -- trackPayment, with the token that it fills in
  unfoldable pub track_payment : Token lib → W → Result (Token lib) × W
  unfolding track
  track_payment token w =
      let (updates, w') = outside.track_payment w token.payment_hash in
      elim updates [ err e ↦ (err fail, w') | ok us ↦ track token us w' ]

  -- After the tracking: a payment that failed for good is given up, and a new one is made.
  unfoldable pub after_track : ℤ → List Bytes → Result (Token lib) × W → Result (Token lib) × W
  unfolding pay_l402_token
  after_track now headers (ok token, w) = (ok token, w)
  after_track now headers (err e, w) = elim (is_terminal e) [
    | false ↦ (err e, w)
    | true ↦
        let (removed, w') = store.remove_pending_token w in
        elim removed [ err f ↦ (err fail, w') | ok u ↦ pay_l402_token now headers w' ]
  ]

  -- The cases of handlePayment, before the credentials are added
  unfoldable pub obtain_token : ℤ → List Bytes → Option (Token lib) → W → Result (Token lib) × W
  unfolding after_track track_payment pay_l402_token
  obtain_token now headers none w = pay_l402_token now headers w
  obtain_token now headers (some token) w = elim (is_pending lib ln token) [
    | true ↦ after_track now headers (track_payment token w)
    | false ↦ (ok token, w)
  ]

  -- addL402Credentials
  unfoldable pub add_credentials : Token lib → List lib.Macaroon → Result (List lib.Macaroon)
  add_credentials token opts = elim (paid_macaroon lib ln token) [
    | err e ↦ err fail
    | ok mac ↦ ok (opts ++ (mac ∷ []))
  ]

  abbrev token_of : Result (Token lib) → Result (Option (Token lib))
  token_of (ok token) = ok (some token)
  token_of (err err_no_token) = ok none
  token_of (err e) = err fail

  abbrev first_credentials : Option (Token lib) → Result (List lib.Macaroon)
  first_credentials none = ok []
  first_credentials (some token) = elim (is_pending lib ln token) [
    | true ↦ ok []
    | false ↦ add_credentials token []
  ]

  -- newInterceptContext: the token of the store, and the credentials of a paid one
  unfoldable pub new_intercept_context : W → Result (Option (Token lib) × List lib.Macaroon)
  unfolding add_credentials
  new_intercept_context w =
      token_of (store.current_token w)
      >>= (λ token. first_credentials token >>= (λ opts. ok (token, opts)))

  -- The second call, with the credentials of the token that was obtained
  unfoldable pub call_again : List lib.Macaroon → Result (Token lib) × W → Outcome × W
  call_again opts (err e, w) = (own_error e, w)
  call_again opts (ok token, w) = elim (add_credentials token opts) [
    | err e ↦ (own_error e, w)
    | ok opts' ↦ let (answer, w') = outside.invoke w opts' in (answered answer.0, w')
  ]

  -- UnaryInterceptor, and StreamInterceptor for the start of a stream
  unfoldable pub unary_interceptor : ℤ → W → Outcome × W
  unfolding new_intercept_context obtain_token call_again
  unary_interceptor now w = elim (new_intercept_context w) [
    | err e ↦ (own_error e, w)
    | ok (token, opts) ↦
        let (answer, w') = outside.invoke w opts in
        elim (is_payment_required answer.0) [
          | false ↦ (answered answer.0, w')
          | true ↦ call_again opts (obtain_token now answer.1 token w')
        ]
  ]

  -- StreamInterceptor: the streamer in place of the invoker
  unfoldable pub stream_interceptor : ℤ → W → Outcome × W
  unfolding unary_interceptor
  stream_interceptor now w = unary_interceptor now w
