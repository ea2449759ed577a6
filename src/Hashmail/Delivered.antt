-- ===== src/Hashmail/Delivered.antt =====
-- Which messages of a writer reach the reader through the pipes of hashmail_server.go.
use mathlib.Core.List.{append-nil, append_assoc}
use aperture.Prelude.{
  ℕ, ◌^◌, ◌%◌, ◌<◌, ◌≡◌, ◌≢◌, ◌∙◌, sym, ap, refl, List, [], ◌∷◌, ◌++◌, Bytes, length, take,
  take-append, All, map, ok, arith, ◌>>=◌,
}
use aperture.Go.Time.{to_int64}
use aperture.Hashmail.{default_buf_size}
use aperture.Hashmail.Framing.{
  limited, Tlv, IsTlv, frame, pieces, pieces_of, copy_size, reads, collect, decode_block,
  read_next_msg, block, delivered,
}
use aperture.Hashmail.Collected.{
  handed, copied, collect-copied-multiple, collect-copied-other, pieces_of-append,
}

reads-cons : (f : Bytes) (fs : List Bytes) → reads (f ∷ fs) ≡ copied (length f) f ++ reads fs
unfolding reads copied pieces_of
reads-cons f fs =
    pieces_of-append default_buf_size (pieces (length f) copy_size f) (pieces_of copy_size fs)

collect-other_frame :
    (joined f : Bytes) (fs : List Bytes)
    → length f % default_buf_size ≢ 0
    → collect joined (reads (f ∷ fs)) ≡ handed (joined ++ f) (reads fs)
collect-other_frame joined f fs h =
    ap (collect joined) (reads-cons f fs)
    ∙ collect-copied-other (length f) f joined (reads fs) (omega arith) h

collect-multiple_frame :
    (joined f : Bytes) (fs : List Bytes)
    → length f % default_buf_size ≡ 0
    → collect joined (reads (f ∷ fs)) ≡ collect (joined ++ f) (reads fs)
collect-multiple_frame joined f fs h =
    ap (collect joined) (reads-cons f fs)
    ∙ collect-copied-multiple (length f) f joined (reads fs) (omega arith) h

collect_none : (joined : Bytes) → collect joined (reads []) ≡ ([], joined)
unfolding reads pieces_of collect
collect_none joined = refl

-- Blocks that do not fill their reads arrive as they are written.
collect_frames :
    (fs : List Bytes)
    → All (λ f. length f % default_buf_size ≢ 0) fs
    → collect [] (reads fs) ≡ (fs, [])
collect_frames [] h = collect_none []
collect_frames (f ∷ fs) h = cc (collect-other_frame [] f fs h.0, collect_frames fs h.1)

limited-take : (n : ℕ) (s : Bytes) → n < 2 ^ 63 → limited (to_int64 n) s ≡ take n s
limited-take n s h = ground arith

module _ (tlv : Tlv) (laws : IsTlv tlv) where
  decode_block-frame :
      (m rest : Bytes) → length m < 2 ^ 63 → decode_block tlv (frame tlv m ++ rest) ≡ ok m
  unfolding decode_block frame
  decode_block-frame m rest h =
      let assoc = append_assoc (tlv.write_var_int (length m)) m rest in
      let read = laws.read-write (length m) (m ++ rest) (omega arith) in
      ap (λ r. r >>= λ p. ok (limited (to_int64 p.0) p.1)) (ap tlv.read_var_int assoc ∙ read)
      ∙ ap ok (limited-take (length m) (m ++ rest) h ∙ take-append m rest (length m) refl)

  read_frame : (m : Bytes) → length m < 2 ^ 63 → read_next_msg tlv (block (frame tlv m)) ≡ ok m
  unfolding read_next_msg
  read_frame m h =
      ap (decode_block tlv) (sym (append-nil (frame tlv m))) ∙ decode_block-frame m [] h

  -- A message whose bytes and length prefix do not fill up whole reads of 4096 bytes.
  abbrev pub IsPartial : Bytes → Type 0
  IsPartial m = (length m < 2 ^ 63) × (length (frame tlv m) % default_buf_size ≢ 0)

  partial_frames :
      (ms : List Bytes)
      → All IsPartial ms
      → All (λ f. length f % default_buf_size ≢ 0) (map (frame tlv) ms)
  partial_frames [] h = tt
  partial_frames (m ∷ ms) h = (h.0.1, partial_frames ms h.1)

  read_frames :
      (ms : List Bytes)
      → All IsPartial ms
      → map (λ b. read_next_msg tlv (block b)) (map (frame tlv) ms) ≡ map ok ms
  read_frames [] h = refl
  read_frames (m ∷ ms) h = cc (read_frame m h.0.0, read_frames ms h.1)

  -- Messages arrive: whatever is written to a mailbox, in messages of any length below 2 ^ 63 such
  -- that no message together with its length prefix is a multiple of 4096 bytes, the reader gets
  -- these messages, whole and in their order.
  pub delivered-map_ok : (ms : List Bytes) → All IsPartial ms → delivered tlv ms ≡ map ok ms
  unfolding delivered
  delivered-map_ok ms h =
      ap (λ c. map (λ b. read_next_msg tlv (block b)) c.0)
        (collect_frames (map (frame tlv) ms) (partial_frames ms h))
      ∙ read_frames ms h

  read_merged :
      (m rest : Bytes) → length m < 2 ^ 63 → read_next_msg tlv (block (frame tlv m ++ rest)) ≡ ok m
  unfolding read_next_msg
  read_merged m rest h = decode_block-frame m rest h

  -- A message that, with its length prefix, is a multiple of 4096 bytes is not delivered until the
  -- next one is written, and then the next one, when it is not such a multiple, is lost.
  pub delivered-multiple :
      (m n : Bytes)
      → length m < 2 ^ 63
      → length (frame tlv m) % default_buf_size ≡ 0
      → length (frame tlv n) % default_buf_size ≢ 0
      → (delivered tlv (m ∷ []) ≡ []) × (delivered tlv (m ∷ n ∷ []) ≡ ok m ∷ [])
  unfolding delivered
  delivered-multiple m n size h k =
      let whole : collect [] (reads (frame tlv m ∷ [])) ≡ ([], frame tlv m) =
        collect-multiple_frame [] (frame tlv m) [] h ∙ collect_none (frame tlv m) in
      let merged : collect [] (reads (frame tlv m ∷ frame tlv n ∷ []))
          ≡ ((frame tlv m ++ frame tlv n) ∷ [], []) =
        cc (
          collect-multiple_frame [] (frame tlv m) (frame tlv n ∷ []) h,
          collect-other_frame (frame tlv m) (frame tlv n) [] k,
        ) in
      (
        ap (λ c. map (λ b. read_next_msg tlv (block b)) c.0) whole,
        ap (λ c. map (λ b. read_next_msg tlv (block b)) c.0) merged
            ∙ ap (λ r. r ∷ []) (read_merged m (frame tlv n) size),
      )
