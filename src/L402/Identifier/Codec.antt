-- ===== src/L402/Identifier/Codec.antt =====
-- Identifiers as bytes and back.
use mathlib.Core.List.{append_assoc}
use aperture.Prelude.{
  ℕ, ◌-◌, ◌<◌, ◌≤◌, ◌≡◌, refl, ◌≢◌, [], ◌++◌, arith, Bytes, length, replicate, ok, err,
  err_unknown_version,
}
use aperture.Go.Binary.{put_uint, read_uint-put, read_some-append, read_some-short}
use aperture.Go.Hex.{AreBytes, hex_decode-encode, length-hex_encode}
use aperture.L402.Identifier.{
  Identifier, encode_identifier, decode_identifier, token_id_string, make_id_from_string,
}

pub record IsIdentifier (id : Identifier) : Type 0 where
  pub latest : id.version ≡ 0
  pub hash : length id.payment_hash ≡ 32
  pub token : length id.token_id ≡ 32

-- An identifier of version 0 is decoded from its encoding, whatever bytes follow.
pub decode-encode_identifier :
    (id : Identifier) (b rest : Bytes)
    → IsIdentifier id
    → encode_identifier id ≡ ok b
    → decode_identifier (b ++ rest) ≡ ok id
unfolding encode_identifier decode_identifier
decode-encode_identifier id b rest v e =
    let fields = id.payment_hash ++ (id.token_id ++ rest) in
    let bytes : b ++ rest ≡ put_uint 2 0 ++ fields = ground (
      arith,
      append_assoc (put_uint 2 0) (id.payment_hash ++ id.token_id) rest,
      append_assoc id.payment_hash id.token_id rest,
    ) in
    rw bytes (
      rw
        (
          read_uint-put 2 0 fields (omega arith),
          read_some-append 32 id.payment_hash (id.token_id ++ rest) v.hash (omega arith),
          read_some-append 32 id.token_id rest v.token (omega arith),
        )
        (ground arith))

-- No identifier of another version is encoded or decoded.
pub other_version :
    (version : ℕ) (id : Identifier) (rest : Bytes)
    → version < 65536
    → version ≢ 0
    → id.version ≡ version
    → (encode_identifier id ≡ err err_unknown_version)
      × (decode_identifier (put_uint 2 version ++ rest) ≡ err err_unknown_version)
unfolding encode_identifier decode_identifier
other_version version id rest h n e = (ground arith, ground (arith, read_uint-put 2 version rest h))

-- A short token id is accepted: a version 0 identifier that breaks off after at least one and at
-- most 32 bytes of its token id is decoded with the id filled up by zeros.
pub decode_short :
    (hash part : Bytes)
    → length hash ≡ 32
    → part ≢ []
    → length part ≤ 32
    → decode_identifier (put_uint 2 0 ++ (hash ++ part))
      ≡ ok (record {
        version = 0;
        payment_hash = hash;
        token_id = part ++ replicate (32 - length part) 0;
      })
unfolding decode_identifier
decode_short hash part h p l =
    rw
      (
        read_uint-put 2 0 (hash ++ part) (omega arith),
        read_some-append 32 hash part h (omega arith),
        read_some-short 32 part p l,
      )
      refl

-- The text of a token id is read back as the same id.
pub make_id-token_id_string :
    (id : Bytes) → AreBytes id → length id ≡ 32 → make_id_from_string (token_id_string id) ≡ ok id
unfolding make_id_from_string token_id_string
make_id-token_id_string id b h = ground (arith, length-hex_encode id, hex_decode-encode id b)
