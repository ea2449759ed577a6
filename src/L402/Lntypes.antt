-- ===== src/L402/Lntypes.antt =====
-- The package lntypes of lnd, which the repository calls and does not contain: hashes and
-- preimages of 32 bytes.
use aperture.Prelude.{ℕ, ◌≡◌, All, Bytes, Bool, true, ◌&&◌, ◌||◌, leb, length, Result, ok}
use aperture.Go.Hex.{AreBytes}

-- A byte of the class [a-f0-9].
abbrev pub is_lower_hex : ℕ → Bool
is_lower_hex c = (leb b'a' c && leb c b'f') || (leb b'0' c && leb c b'9')

pub record Lntypes : Type 0 where
  pub make_preimage_from_str : Bytes → Result Bytes
  -- Preimage.String
  pub preimage_string : Bytes → Bytes
  -- Preimage.Hash
  pub preimage_hash : Bytes → Bytes
  -- lntypes.MakeHash
  pub make_hash : Bytes → Result Bytes

abbrev pub IsPreimage : Bytes → Type 0
IsPreimage p = (length p ≡ 32) × AreBytes p

-- The text of a preimage is its 64 lower case hex digits, and is read back.
pub record IsLntypes (ln : Lntypes) : Type 0 where
  pub string_length : (p : Bytes) → IsPreimage p → length (ln.preimage_string p) ≡ 64
  pub string_hex :
      (p : Bytes) → IsPreimage p → All (λ c. is_lower_hex c ≡ true) (ln.preimage_string p)
  pub make-string :
      (p : Bytes) → IsPreimage p → ln.make_preimage_from_str (ln.preimage_string p) ≡ ok p
  pub make_hash-self : (h : Bytes) → length h ≡ 32 → ln.make_hash h ≡ ok h
