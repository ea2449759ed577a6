-- ===== src/L402/Token/Codec.antt =====
-- serializeToken and deserializeToken of l402/token.go against each other.
use mathlib.Core.List.{append-nil}
use aperture.Prelude.{
  [], subst, ℕ, ◌≡◌, ◌<◌, ◌^◌, ◌%◌, ◌++◌, refl, Bytes, length, ok, ℤ, pos, negsuc, arith,
  Result-cases, is_ok, is_err,
}
use aperture.Go.Binary.{put_uint, read_uint, read_full-append, read_uint-put}
use aperture.Go.Time.{to_uint64, to_int64}
use aperture.L402.Macaroon.{MacaroonLib, IsMacaroonLib}
use aperture.L402.Lntypes.{Lntypes, IsLntypes}
use aperture.L402.Token.{Token, token_from_challenge, serialize_token, deserialize_token}

abbrev pub IsInt64 : ℤ → Type 0
IsInt64 (pos n) = n < 2 ^ 63
IsInt64 (negsuc n) = n < 2 ^ 63

to_int64-to_uint64 : (z : ℤ) → IsInt64 z → to_int64 (to_uint64 z) ≡ z
to_int64-to_uint64 (pos n) h = ground arith
to_int64-to_uint64 (negsuc n) h = ground arith

to_uint64-lt : (z : ℤ) → to_uint64 z < 2 ^ 64
to_uint64-lt (pos n) = omega arith
to_uint64-lt (negsuc n) = omega arith

read_uint-last : (w n : ℕ) → n < 256 ^ w → read_uint w (put_uint w n) ≡ ok (n, [])
read_uint-last w n h =
    subst (λ x. read_uint w x ≡ ok (n, [])) (append-nil (put_uint w n)) (read_uint-put w n [] h)

-- The sizes of the fields of a token, and of its macaroon.
pub record IsToken {lib : MacaroonLib} (t : Token lib) : Type 0 where
  pub hash_size : length t.payment_hash ≡ 32
  pub preimage_size : length t.preimage ≡ 32
  pub amount : t.amount_paid < 2 ^ 64
  pub fee : t.routing_fee_paid < 2 ^ 64
  pub time : IsInt64 t.time_created
  pub mac_size : (b : Bytes) → lib.marshal_binary t.base_mac ≡ ok b → length b < 2 ^ 32

module _ (lib : MacaroonLib) (ln : Lntypes) (laws : IsMacaroonLib lib) (hex : IsLntypes ln) where
  -- A token whose fields have their sizes is read back from its serialization, whatever the clock
  -- says when it is read.
  pub deserialize-serialize_token :
      (now : ℤ) (t : Token lib) (s : Bytes)
      → IsToken t
      → serialize_token lib ln t ≡ ok s
      → deserialize_token lib ln now s ≡ ok t
  unfolding serialize_token deserialize_token token_from_challenge
  deserialize-serialize_token now t s h e = elim (Result-cases (lib.marshal_binary t.base_mac)) [
    | is_ok b k ↦
        let small : length b < 2 ^ 32 = h.mac_size b k in
        let len : length b % 2 ^ 32 ≡ length b = omega arith in
        let m = length b in
        let f = put_uint 8 (to_uint64 t.time_created) in
        let d = put_uint 8 t.routing_fee_paid ++ f in
        let c = put_uint 8 t.amount_paid ++ d in
        let p = t.preimage ++ c in
        let q = t.payment_hash ++ p in
        let text : s ≡ put_uint 4 m ++ (b ++ q) = ground (arith, e, k) in
        rw
          (
            text,
            read_uint-put 4 m (b ++ q) (omega (arith, small)),
            read_full-append m b q refl,
            read_full-append 32 t.payment_hash p h.hash_size,
            laws.unmarshal-marshal t.base_mac b k,
            hex.make_hash-self t.payment_hash h.hash_size,
            read_full-append 32 t.preimage c h.preimage_size,
            read_uint-put 8 t.amount_paid d (omega (arith, h.amount)),
            read_uint-put 8 t.routing_fee_paid f (omega (arith, h.fee)),
            read_uint-last 8 (to_uint64 t.time_created)
                (omega (arith, to_uint64-lt t.time_created)),
            to_int64-to_uint64 t.time_created h.time,
          )
          refl
    | is_err f k ↦ absurd (ground (arith, e, k))
  ]
