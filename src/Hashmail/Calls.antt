-- ===== src/Hashmail/Calls.antt =====
-- SendStream and RecvStream of hashmail_server.go: a turn of a loop comes with what the calls in it
-- answer. What they return when they end is Hashmail/World's.
use aperture.Prelude.{
  ℕ, List, [], ◌∷◌, if◌then◌else◌, Bytes, Option, none, some, Error, fail, Result, ok, err,
}
use aperture.Go.Hex.{hex_encode}
use aperture.Hashmail.{CipherBox, id_of, new_stream_id, base_id, is_odd}
use aperture.Hashmail.Framing.{Tlv, frame, write_msg, Wakeup, read_next_msg}
use aperture.Hashmail.Server.{HashMailServer, look_up_write_stream}

-- The start of SendStream, given the first message: the stream that is taken.
unfoldable pub send_stream_start : Result CipherBox → HashMailServer → Result ℕ × HashMailServer
send_stream_start (err e) h = (err e, h)
send_stream_start (ok box) h = elim (id_of box.desc) [
  | err e ↦ (err e, h)
  | ok id ↦ look_up_write_stream id h
]

-- A turn of the loop of SendStream: the context is done, `quit` is closed, Recv fails, or it
-- returns a message, with the answers of the limiter and of the pipe.
pub data SendTurn : Type 0 where
  send_ctx_done : SendTurn
  send_quit : SendTurn
  send_failed : Error → SendTurn
  send_msg : Bytes → Result (Unit {0}) → Result (Unit {0}) → SendTurn

-- What is written to the pipe, and the answer of the call when it has ended; the first message
-- goes the same way as those after it.
unfoldable pub send_stream : Tlv → List SendTurn → List Bytes × Option (Result (Unit {0}))
send_stream tlv [] = ([], none)
send_stream tlv (send_ctx_done ∷ ts) = ([], some (ok tt))
send_stream tlv (send_quit ∷ ts) = ([], some (err fail))
send_stream tlv (send_failed e ∷ ts) = ([], some (err e))
send_stream tlv (send_msg msg waited wrote ∷ ts) =
    let (frames, answer) = send_stream tlv ts in
    elim (write_msg tlv waited (λ f. wrote) msg) [
      | err e ↦ ([], some (err e))
      | ok u ↦ (frame tlv msg ∷ frames, answer)
    ]

-- A turn of the loop of RecvStream: likewise, or what ReadNextMsg receives, with the answer of Send.
pub data RecvTurn : Type 0 where
  recv_ctx_done : RecvTurn
  recv_quit : RecvTurn
  recv_woken : Wakeup → Result (Unit {0}) → RecvTurn

-- What the client is sent, the labels that mailboxReadCount counts, and the answer.
pub record Received : Type 0 where
  pub sent : List Bytes
  pub counted : List Bytes
  pub answer : Option (Result (Unit {0}))

abbrev ended : Result (Unit {0}) → Received
ended r = record { sent = []; counted = []; answer = some r }

-- Messages are counted for the odd one of a pair of mailboxes.
unfoldable pub count_read : Bytes → List Bytes → List Bytes
count_read sid labels = if is_odd sid then hex_encode (base_id sid) ∷ labels else labels

abbrev send_next : Bytes → Bytes → Result (Unit {0}) → Received → Received
send_next sid msg (err e) rest = record {
  sent = [];
  counted = count_read sid [];
  answer = some (err e);
}
send_next sid msg (ok u) rest = record {
  sent = msg ∷ rest.sent;
  counted = count_read sid rest.counted;
  answer = rest.answer;
}

-- The loop of RecvStream, for the id of the descriptor
unfoldable pub recv_stream : Tlv → Bytes → List RecvTurn → Received
unfolding count_read
recv_stream tlv id [] = record { sent = []; counted = []; answer = none }
recv_stream tlv id (recv_ctx_done ∷ ts) = ended (ok tt)
recv_stream tlv id (recv_quit ∷ ts) = ended (err fail)
recv_stream tlv id (recv_woken w sent ∷ ts) =
    let rest = recv_stream tlv id ts in
    elim (read_next_msg tlv w) [
      | err e ↦ ended (err e)
      | ok msg ↦ send_next (new_stream_id id) msg sent rest
    ]
