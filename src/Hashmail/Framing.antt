-- ===== src/Hashmail/Framing.antt =====
-- How hashmail_server.go carries messages through its two pipes: WriteMsg, the goroutines of
-- newStream and ReadNextMsg.
use aperture.Prelude.{
  ℕ, zero, suc, ◌^◌, ◌*◌, ◌<◌, ◌≡◌, true, false, List, [], ◌∷◌, ◌++◌, ◌==◌, Bytes, length, take,
  drop, Error, Result, ok, err, ◌>>=◌, ◌>>◌, ℤ, pos, negsuc, map,
}
use aperture.Go.Time.{to_int64}
use aperture.Hashmail.{default_buf_size}

-- tlv.WriteVarInt and tlv.ReadVarInt, of lnd
pub record Tlv : Type 0 where
  pub write_var_int : ℕ → Bytes
  pub read_var_int : Bytes → Result (ℕ × Bytes)

-- A number of 64 bits is read back, and what follows it is left.
pub record IsTlv (tlv : Tlv) : Type 0 where
  pub read-write :
      (n : ℕ) (rest : Bytes)
      → n < 2 ^ 64
      → tlv.read_var_int (tlv.write_var_int n ++ rest) ≡ ok (n, rest)

-- A message behind its length.
unfoldable pub frame : Tlv → Bytes → Bytes
frame tlv msg = tlv.write_var_int (length msg) ++ msg

-- WriteMsg, given what the limiter and the pipe answer
unfoldable pub write_msg :
    Tlv → Result (Unit {0}) → (Bytes → Result (Unit {0})) → Bytes → Result (Unit {0})
unfolding frame
write_msg tlv waited write msg = waited >> write (frame tlv msg)

-- A block in pieces of `n` bytes, the last of them shorter.
unfoldable pub pieces : ℕ → ℕ → Bytes → List Bytes
pieces zero n s = []
pieces (suc fuel) n [] = []
pieces (suc fuel) n (b ∷ s) = take n (b ∷ s) ∷ pieces fuel n (drop n (b ∷ s))

-- The buffer of io.Copy
abbrev pub copy_size : ℕ
copy_size = 32 * 1024

unfoldable pub pieces_of : ℕ → List Bytes → List Bytes
unfolding pieces
pieces_of n [] = []
pieces_of n (s ∷ ss) = pieces (length s) n s ++ pieces_of n ss

-- The reads that return what some writes wrote: a read of a pipe gets bytes of one write. The
-- first goroutine copies the one pipe to the other.
unfoldable pub reads : List Bytes → List Bytes
unfolding pieces_of
reads writes = pieces_of default_buf_size (pieces_of copy_size writes)

-- The second goroutine joins a read that has filled its buffer with those after it: the blocks
-- that it hands to ReadNextMsg, and what it still keeps.
unfoldable pub collect : Bytes → List Bytes → List Bytes × Bytes
collect joined [] = ([], joined)
collect joined (r ∷ rs) = elim (length r == default_buf_size) [
  | true ↦ collect (joined ++ r) rs
  | false ↦ let (blocks, kept) = collect [] rs in ((joined ++ r) ∷ blocks, kept)
]

-- io.ReadAll of an io.LimitReader: a negative limit reads nothing.
abbrev pub limited : ℤ → Bytes → Bytes
limited (pos n) s = take n s
limited (negsuc n) s = []

-- The message in a block; what comes after it is dropped with the block.
unfoldable pub decode_block : Tlv → Bytes → Result Bytes
decode_block tlv block = tlv.read_var_int block >>= λ p. ok (limited (to_int64 p.0) p.1)

-- What the select of ReadNextMsg receives.
pub data Wakeup : Type 0 where
  block : Bytes → Wakeup
  ctx_done : Error → Wakeup
  read_err : Error → Wakeup

-- ReadNextMsg
unfoldable pub read_next_msg : Tlv → Wakeup → Result Bytes
unfolding decode_block
read_next_msg tlv (block b) = decode_block tlv b
read_next_msg tlv (ctx_done e) = err e
read_next_msg tlv (read_err e) = err e

-- What a reader gets of the messages that are written one after the other.
unfoldable pub delivered : Tlv → List Bytes → List (Result Bytes)
unfolding reads collect frame
delivered tlv msgs =
    map (λ b. read_next_msg tlv (block b)) (collect [] (reads (map (frame tlv) msgs))).0
