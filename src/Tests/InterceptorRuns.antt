-- ===== src/Tests/InterceptorRuns.antt =====
-- A client without a token whose server always asks for a payment, and an instance of the theorem.
use aperture.Prelude.{
  ℕ, ◌+◌, ◌≤◌, ◌≡◌, refl, [], ◌∷◌, codes, some, err_no_token, ok, err, pos, arith,
}
use aperture.Go.Base64.{base64_encode, base64_decode, to64}
use aperture.Go.Strings.{to_lower, join}
use aperture.L402.Token.{token_from_challenge, paid_macaroon}
use aperture.L402.Caveat.{add_first_party_caveats}
use aperture.L402.Interceptor.{
  is_payment_required, Store, Outside, paid, status, internal, msat, unary_interceptor, answered,
}
use aperture.L402.Interceptor.Spent.{IsSpent, unary_interceptor-IsCapped}
use aperture.Tests.Macaroons.{toys, toy_marshal, toy_unmarshal}
use aperture.Tests.RequestRuns.{toy_ln, proof, small, marshaled}

-- The state is what has been spent.
abbrev no_token : Store toys ℕ
no_token = record {
  current_token = λ w. err err_no_token;
  store_token = λ w t. (ok tt, w);
  remove_pending_token = λ w. (ok tt, w);
}

abbrev greedy : Outside toys ℕ
greedy = record {
  match_challenge = λ h. some (base64_encode (marshaled small), h);
  decode_invoice = λ i. ok (record { milli_sat = some 3000; payment_hash = proof });
  pay_invoice = λ w i fee. (paid proof (pos 3) (pos 1), w + (3000 + msat fee));
  track_payment = λ w hash. (ok [], w);
  invoke = λ w opts. ((status internal (codes "Payment required"), codes "L402" ∷ []), w);
}

greedy-IsSpent : IsSpent no_token greedy (λ w. w)
greedy-IsSpent = record {
  store_free = λ w t. refl;
  remove_free = λ w. refl;
  track_free = λ w hash. refl;
  invoke_free = λ w opts. refl;
  pay_capped = λ w i fee. omega arith;
}

-- It pays once, and the server's second answer is final.
greedy_run :
    unary_interceptor toys toy_ln no_token greedy (pos 3) (pos 2) (pos 0) 7
    ≡ (answered (status internal (codes "Payment required")), 5007)
unfolding unary_interceptor is_payment_required to_lower base64_decode base64_encode toy_marshal
    join to64 token_from_challenge toy_unmarshal paid_macaroon add_first_party_caveats
greedy_run = refl

unary_interceptor-IsCapped_example :
    (unary_interceptor toys toy_ln no_token greedy (pos 3) (pos 2) (pos 0) 7).1
    ≤ 7 + (msat (pos 3) + msat (pos 2))
unary_interceptor-IsCapped_example =
    unary_interceptor-IsCapped toys toy_ln no_token greedy (pos 3) (pos 2) (λ w. w) greedy-IsSpent
      (pos 0) 7
