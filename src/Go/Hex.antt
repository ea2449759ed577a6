-- ===== src/Go/Hex.antt =====
-- Package encoding/hex.
use aperture.Prelude.{
  ℕ, ◌+◌, ◌-◌, ◌*◌, ◌/◌, ◌%◌, ◌<◌, ◌≡◌, refl, ◌&&◌, [], ◌∷◌, arith, ltb, leb, if◌then◌else◌, Bytes,
  Option, none, some, Result, ok, err, ◌>>=◌, or_err, fail, All, length,
}

abbrev pub hex_digit : ℕ → ℕ
hex_digit n = if ltb n 10 then n + 48 else n + 87

-- hex.EncodeToString
unfoldable pub hex_encode : Bytes → Bytes
hex_encode [] = []
hex_encode (b ∷ s) = hex_digit (b / 16) ∷ hex_digit (b % 16) ∷ hex_encode s

abbrev pub from_hex : ℕ → Option ℕ
from_hex c =
    if leb 48 c && leb c 57
    then some (c - 48)
    else if leb 97 c && leb c 102
    then some (c - 87)
    else if leb 65 c && leb c 70
    then some (c - 55)
    else none

-- hex.DecodeString
unfoldable pub hex_decode : Bytes → Result Bytes
hex_decode [] = ok []
hex_decode (a ∷ []) = err fail
hex_decode (a ∷ b ∷ s) = do
  hi ← or_err (from_hex a) fail
  lo ← or_err (from_hex b) fail
  rest ← hex_decode s
  ok ((hi * 16 + lo) ∷ rest)

abbrev pub AreBytes : Bytes → Type 0
AreBytes = All (λ b. b < 256)

from-hex_digit : (n : ℕ) → n < 16 → from_hex (hex_digit n) ≡ some n
from-hex_digit n h = ground arith

pub hex_decode-encode : (s : Bytes) → AreBytes s → hex_decode (hex_encode s) ≡ ok s
unfolding hex_decode hex_encode
hex_decode-encode [] h = refl
hex_decode-encode (b ∷ s) h =
    rw
      (
        from-hex_digit (b / 16) (omega arith),
        from-hex_digit (b % 16) (omega arith),
        hex_decode-encode s h.1,
      )
      (ground arith)

pub length-hex_encode : (s : Bytes) → length (hex_encode s) ≡ 2 * length s
unfolding hex_encode
length-hex_encode [] = refl
length-hex_encode (b ∷ s) = omega (arith, length-hex_encode s)
