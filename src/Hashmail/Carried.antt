-- ===== src/Hashmail/Carried.antt =====
-- From SendStream to RecvStream of hashmail_server.go, through the pipes.
use aperture.Prelude.{◌≡◌, ◌∙◌, ap, refl, List, [], ◌∷◌, Bytes, none, ok, All, map, arith}
use aperture.Hashmail.Framing.{
  Tlv, IsTlv, frame, write_msg, read_next_msg, block, reads, collect, delivered,
}
use aperture.Hashmail.Delivered.{IsPartial, delivered-map_ok}
use aperture.Hashmail.Calls.{SendTurn, send_msg, send_stream, RecvTurn, recv_woken, recv_stream}

-- Messages that the limiter lets through and the pipe takes.
abbrev pub sends : List Bytes → List SendTurn
sends ms = map (λ m. send_msg m (ok tt) (ok tt)) ms

-- Blocks that the reader receives and sends to its client.
abbrev pub receives : List Bytes → List RecvTurn
receives bs = map (λ b. recv_woken (block b) (ok tt)) bs

send_stream-sends :
    (tlv : Tlv) (ms : List Bytes) → send_stream tlv (sends ms) ≡ (map (frame tlv) ms, none)
unfolding send_stream write_msg
send_stream-sends tlv [] = refl
send_stream-sends tlv (m ∷ ms) = ground (arith, send_stream-sends tlv ms)

recv_stream-receives :
    (tlv : Tlv) (id : Bytes) (bs ms : List Bytes)
    → map (λ b. read_next_msg tlv (block b)) bs ≡ map ok ms
    → ((recv_stream tlv id (receives bs)).sent ≡ ms)
      × ((recv_stream tlv id (receives bs)).answer ≡ none)
unfolding recv_stream
recv_stream-receives tlv id [] [] h = (refl, refl)
recv_stream-receives tlv id [] (m ∷ ms) h = absurd (cc h)
recv_stream-receives tlv id (b ∷ bs) [] h = absurd (cc h)
recv_stream-receives tlv id (b ∷ bs) (m ∷ ms) h =
    let first : read_next_msg tlv (block b) ≡ ok m = cc h in
    let rest = recv_stream-receives tlv id bs ms (cc h) in ground (arith, first, rest)

module _ (tlv : Tlv) (laws : IsTlv tlv) where
  -- From the sender to the receiver: what SendStream writes of messages whose frames are not
  -- multiples of 4096 bytes, when it passes through the goroutines of the stream, makes RecvStream
  -- send these messages to its client, whole and in their order, and wait for more.
  pub recv_stream-send_stream :
      (id : Bytes) (ms : List Bytes)
      → All (IsPartial tlv laws) ms
      → let blocks = (collect [] (reads (send_stream tlv (sends ms)).0)).0 in
        ((recv_stream tlv id (receives blocks)).sent ≡ ms)
        × ((recv_stream tlv id (receives blocks)).answer ≡ none)
  recv_stream-send_stream id ms h =
      recv_stream-receives tlv id (collect [] (reads (send_stream tlv (sends ms)).0)).0 ms (
        ap (λ s. map (λ b. read_next_msg tlv (block b)) (collect [] (reads s.0)).0)
          (send_stream-sends tlv ms)
        ∙ unfold delivered in delivered-map_ok tlv laws ms h)
