-- ===== src/L402/Token.antt =====
-- l402/token.go: tokens and their serialization. A time is its UnixNano, an int64.
pub mod Codec
pub mod Failed
use aperture.Prelude.{
  ℕ, ◌≡◌, Bool, not, List, [], ◌∷◌, ◌++◌, Bytes, bytes_eq, length, replicate, ◌%◌, ◌^◌, Result, ok,
  err, ◌>>=◌, fail, ℤ,
}
use aperture.Go.Binary.{put_uint, read_uint, read_full}
use aperture.Go.Time.{to_uint64, to_int64}
use aperture.L402.Macaroon.{MacaroonLib}
use aperture.L402.Lntypes.{Lntypes}
use aperture.L402.Caveat.{Caveat, preimage_key, add_first_party_caveats}

pub record Token (lib : MacaroonLib) : Type 0 where
  pub payment_hash : Bytes
  pub preimage : Bytes
  pub amount_paid : ℕ
  pub routing_fee_paid : ℕ
  pub time_created : ℤ
  pub base_mac : lib.Macaroon

abbrev pub zero_preimage : Bytes
zero_preimage = replicate 32 0

module _ (lib : MacaroonLib) (ln : Lntypes) where
  -- tokenFromChallenge, with the value of time.Now as its first argument
  unfoldable pub token_from_challenge : ℤ → Bytes → Bytes → Result (Token lib)
  token_from_challenge now base_mac payment_hash = do
    mac ← elim (lib.unmarshal_binary base_mac) [ ok m ↦ ok m | err e ↦ err fail ]
    hash ← ln.make_hash payment_hash
    ok (record {
      payment_hash = hash;
      preimage = zero_preimage;
      amount_paid = 0;
      routing_fee_paid = 0;
      time_created = now;
      base_mac = mac;
    })

  -- Token.PaidMacaroon
  unfoldable pub paid_macaroon : Token lib → Result lib.Macaroon
  paid_macaroon t =
      add_first_party_caveats lib t.base_mac
        (record { condition = preimage_key; value = ln.preimage_string t.preimage } ∷ [])

  -- Token.isPending
  unfoldable pub is_pending : Token lib → Bool
  is_pending t = bytes_eq t.preimage zero_preimage

  -- serializeToken: the length of the macaroon is cut to 32 bits.
  unfoldable pub serialize_token : Token lib → Result Bytes
  serialize_token t = do
    base_mac ← lib.marshal_binary t.base_mac
    ok (
        put_uint 4 (length base_mac % 2 ^ 32)
        ++ (base_mac
            ++ (t.payment_hash
                ++ (t.preimage
                    ++ (put_uint 8 t.amount_paid
                        ++ (put_uint 8 t.routing_fee_paid
                            ++ put_uint 8 (to_uint64 t.time_created)))))))

  -- deserializeToken: tokenFromChallenge is called in the middle of the reads.
  unfoldable pub deserialize_token : ℤ → Bytes → Result (Token lib)
  unfolding token_from_challenge
  deserialize_token now value = do
    (mac_len, r1) ← read_uint 4 value
    (mac_bytes, r2) ← read_full mac_len r1
    (payment_hash, r3) ← read_full 32 r2
    token ← token_from_challenge now mac_bytes payment_hash
    (preimage, r4) ← read_full 32 r3
    (amount_paid, r5) ← read_uint 8 r4
    (routing_fee_paid, r6) ← read_uint 8 r5
    (unix_nano, r7) ← read_uint 8 r6
    ok (record token {
      preimage = preimage;
      amount_paid = amount_paid;
      routing_fee_paid = routing_fee_paid;
      time_created = to_int64 unix_nano;
    })
