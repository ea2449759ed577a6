-- ===== src/Go/Base64.antt =====
-- Package encoding/base64, StdEncoding: with padding, and not strict about the last bits.
use aperture.Prelude.{
  false, ℕ, ◌+◌, ◌-◌, ◌*◌, ◌/◌, ◌%◌, ◌<◌, ◌≡◌, refl, ◌≢◌, ◌&&◌, ◌||◌, [], ◌∷◌, arith, ltb, leb,
  ◌==◌, if◌then◌else◌, Bytes, Option, none, some, Result, ok, err, ◌>>=◌, or_err, fail, All,
}
use aperture.Go.Hex.{AreBytes}

unfoldable pub to64 : ℕ → ℕ
to64 v =
    if ltb v 26
    then v + 65
    else if ltb v 52
    then v + 71
    else if ltb v 62
    then v - 4
    else if v == 62
    then b'+'
    else b'/'

unfoldable pub from64 : ℕ → Option ℕ
from64 c =
    if leb 65 c && leb c 90
    then some (c - 65)
    else if leb 97 c && leb c 122
    then some (c - 71)
    else if leb 48 c && leb c 57
    then some (c + 4)
    else if c == b'+'
    then some 62
    else if c == b'/'
    then some 63
    else none

-- EncodeToString
unfoldable pub base64_encode : Bytes → Bytes
base64_encode [] = []
base64_encode (a ∷ []) = to64 (a / 4) ∷ to64 (a % 4 * 16) ∷ b'=' ∷ b'=' ∷ []
base64_encode (a ∷ b ∷ []) =
    to64 (a / 4) ∷ to64 (a % 4 * 16 + b / 16) ∷ to64 (b % 16 * 4) ∷ b'=' ∷ []
base64_encode (a ∷ b ∷ c ∷ s) =
    to64 (a / 4)
    ∷ to64 (a % 4 * 16 + b / 16)
    ∷ to64 (b % 16 * 4 + c / 64)
    ∷ to64 (c % 64)
    ∷ base64_encode s

one_byte : ℕ → ℕ → Result Bytes
one_byte p q = do u ← or_err (from64 p) fail; v ← or_err (from64 q) fail; ok ((u * 4 + v / 16) ∷ [])

two_bytes : ℕ → ℕ → ℕ → Result Bytes
two_bytes p q r = do
  u ← or_err (from64 p) fail
  v ← or_err (from64 q) fail
  w ← or_err (from64 r) fail
  ok ((u * 4 + v / 16) ∷ (v % 16 * 16 + w / 4) ∷ [])

-- A group that ends in padding is the last one.
last_group : ℕ → ℕ → ℕ → Bytes → Result Bytes
unfolding one_byte two_bytes
last_group p q r [] = if r == b'=' then one_byte p q else two_bytes p q r
last_group p q r (c ∷ s) = err fail

full_group : ℕ → ℕ → ℕ → ℕ → Bytes → Result Bytes
full_group p q r t rest = do
  u ← or_err (from64 p) fail
  v ← or_err (from64 q) fail
  w ← or_err (from64 r) fail
  x ← or_err (from64 t) fail
  ok ((u * 4 + v / 16) ∷ (v % 16 * 16 + w / 4) ∷ (w % 4 * 64 + x) ∷ rest)

-- The groups of four characters.
groups : Bytes → Result Bytes
unfolding last_group full_group
groups [] = ok []
groups (p ∷ []) = err fail
groups (p ∷ q ∷ []) = err fail
groups (p ∷ q ∷ r ∷ []) = err fail
groups (p ∷ q ∷ r ∷ t ∷ s) =
    let more = groups s >>= full_group p q r t in if t == b'=' then last_group p q r s else more

-- The decoder skips line ends.
skip_lines : Bytes → Bytes
skip_lines [] = []
skip_lines (c ∷ s) = let rest = skip_lines s in if c == 10 || c == 13 then rest else c ∷ rest

-- DecodeString
unfoldable pub base64_decode : Bytes → Result Bytes
unfolding groups skip_lines from64
base64_decode s = groups (skip_lines s)

from64-to64 : (v : ℕ) → v < 64 → from64 (to64 v) ≡ some v
unfolding to64 from64
from64-to64 v h = ground arith

-- What the encoder writes: no line end, no colon.
abbrev pub IsClean : ℕ → Type 0
IsClean c = (c ≢ 10) × (c ≢ 13) × (c ≢ b':')

to64-IsClean : (v : ℕ) → v < 64 → IsClean (to64 v)
unfolding to64
to64-IsClean v h = ground arith

to64-ne-pad : (v : ℕ) → v < 64 → to64 v ≢ b'='
unfolding to64
to64-ne-pad v h = ground arith

pub encode-IsClean : (s : Bytes) → AreBytes s → All IsClean (base64_encode s)
unfolding base64_encode
encode-IsClean [] h = tt
encode-IsClean (a ∷ []) h =
    (to64-IsClean _ (omega arith), (to64-IsClean _ (omega arith), omega arith))
encode-IsClean (a ∷ b ∷ []) h = (
  to64-IsClean _ (omega arith),
  (to64-IsClean _ (omega arith), (to64-IsClean _ (omega arith), omega arith)),
)
encode-IsClean (a ∷ b ∷ c ∷ s) h = (
  to64-IsClean _ (omega arith),
  (
    to64-IsClean _ (omega arith),
    (to64-IsClean _ (omega arith), (to64-IsClean _ (omega arith), encode-IsClean s h.1.1.1)),
  ),
)

read_one : (a : ℕ) → a < 256 → one_byte (to64 (a / 4)) (to64 (a % 4 * 16)) ≡ ok (a ∷ [])
unfolding one_byte
read_one a h =
    rw (from64-to64 (a / 4) (omega arith), from64-to64 (a % 4 * 16) (omega arith)) (ground arith)

read_two :
    (a b : ℕ)
    → a < 256
    → b < 256
    → two_bytes (to64 (a / 4)) (to64 (a % 4 * 16 + b / 16)) (to64 (b % 16 * 4)) ≡ ok (a ∷ b ∷ [])
unfolding two_bytes
read_two a b h k =
    rw
      (
        from64-to64 (a / 4) (omega arith),
        from64-to64 (a % 4 * 16 + b / 16) (omega arith),
        from64-to64 (b % 16 * 4) (omega arith),
      )
      (ground arith)

read_full :
    (a b c : ℕ) (s : Bytes)
    → a < 256
    → b < 256
    → c < 256
    → full_group
        (to64 (a / 4))
        (to64 (a % 4 * 16 + b / 16))
        (to64 (b % 16 * 4 + c / 64))
        (to64 (c % 64))
        s
      ≡ ok (a ∷ b ∷ c ∷ s)
unfolding full_group
read_full a b c s h k l =
    rw
      (
        from64-to64 (a / 4) (omega arith),
        from64-to64 (a % 4 * 16 + b / 16) (omega arith),
        from64-to64 (b % 16 * 4 + c / 64) (omega arith),
        from64-to64 (c % 64) (omega arith),
      )
      (ground arith)

not_pad : (v : ℕ) → v < 64 → (to64 v == b'=') ≡ false
not_pad v h = ground (arith, to64-ne-pad v)

groups-encode : (s : Bytes) → AreBytes s → groups (base64_encode s) ≡ ok s
unfolding groups base64_encode
groups-encode [] h = refl
groups-encode (a ∷ []) h = read_one a h.0
groups-encode (a ∷ b ∷ []) h = rw (not_pad (b % 16 * 4) (omega arith)) (read_two a b h.0 h.1.0)
groups-encode (a ∷ b ∷ c ∷ s) h =
    rw (not_pad (c % 64) (omega arith), groups-encode s h.1.1.1)
      (read_full a b c s h.0 h.1.0 h.1.1.0)

skip_lines-IsClean : (s : Bytes) → All IsClean s → skip_lines s ≡ s
unfolding skip_lines
skip_lines-IsClean [] h = refl
skip_lines-IsClean (c ∷ s) h = ground (arith, skip_lines-IsClean s h.1, h.0)

-- Decoding an encoded text gives it back.
pub base64_decode-encode : (s : Bytes) → AreBytes s → base64_decode (base64_encode s) ≡ ok s
unfolding base64_decode
base64_decode-encode s h =
    rw (skip_lines-IsClean (base64_encode s) (encode-IsClean s h)) (groups-encode s h)
