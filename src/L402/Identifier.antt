-- ===== src/L402/Identifier.antt =====
-- l402/identifier.go: the identifier of a macaroon.
pub mod Codec
use aperture.Prelude.{
  ℕ, ◌*◌, ◌≡◌, List, [], ◌∷◌, ◌++◌, Bytes, length, Result, ok, err, ◌>>=◌, ◌>>◌, guard, ◌==◌,
  err_unknown_version, fail, if◌then◌else◌,
}
use aperture.Go.Binary.{put_uint, read_uint, read_some}
use aperture.Go.Hex.{hex_encode, hex_decode}

-- LatestVersion, SecretSize, TokenIDSize and the size of a payment hash
abbrev pub latest_version : ℕ
latest_version = 0

abbrev pub secret_size : ℕ
secret_size = 32

abbrev pub token_id_size : ℕ
token_id_size = 32

abbrev pub hash_size : ℕ
hash_size = 32

-- `version` is a uint16; the hash and the token id are arrays of 32 bytes.
pub record Identifier : Type 0 where
  pub version : ℕ
  pub payment_hash : Bytes
  pub token_id : Bytes

-- TokenID.String
unfoldable pub token_id_string : Bytes → Bytes
token_id_string id = hex_encode id

unfoldable pub make_id_from_string : Bytes → Result Bytes
make_id_from_string s = do guard (length s == 2 * token_id_size) fail; hex_decode s

-- EncodeIdentifier: what is written to an empty buffer.
unfoldable pub encode_identifier : Identifier → Result Bytes
encode_identifier id =
    if id.version == 0
    then ok (put_uint 2 id.version ++ (id.payment_hash ++ id.token_id))
    else err err_unknown_version

-- The fields of a version 0 identifier. The number of bytes that `Read` returns is not looked at.
unfoldable pub decode_version_0 : ℕ → Bytes → Result Identifier
decode_version_0 version s = do
  (payment_hash, s') ← read_some hash_size s
  (token_id, rest) ← read_some token_id_size s'
  ok (record { version = version; payment_hash = payment_hash; token_id = token_id })

-- DecodeIdentifier
unfoldable pub decode_identifier : Bytes → Result Identifier
unfolding decode_version_0
decode_identifier s = do
  (version, s') ← read_uint 2 s
  if version == 0 then decode_version_0 version s' else err err_unknown_version
