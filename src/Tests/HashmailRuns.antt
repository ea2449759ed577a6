-- ===== src/Tests/HashmailRuns.antt =====
-- Mailboxes with a length prefix of eight bytes, and instances of the theorems about them.
use aperture.Prelude.{
  ℕ, ◌≡◌, ◌↔◌, refl, true, false, [], ◌∷◌, Bytes, codes, replicate, length, length-append,
  length-replicate, some, none, ok, err, pos, arith, bytes_eq, panicked, ◌≢◌, List,
}
use aperture.Go.Binary.{put_uint, read_uint, read_uint-put, length-put_uint}
use aperture.Go.Maps.{lookup, put, delete}
use aperture.Hashmail.{
  HashMailServerConfig, CipherBoxAuth, with_defaults, new_stream_id, validate_auth_req, id_of,
  validate_stream_auth,
}
use aperture.Hashmail.Framing.{Tlv, IsTlv, frame, delivered, reads, collect}
use aperture.Hashmail.Delivered.{delivered-multiple}
use aperture.Hashmail.Calls.{recv_stream, send_stream}
use aperture.Hashmail.Carried.{recv_stream-send_stream, sends, receives}
use aperture.Hashmail.Stream.{
  Stream, new_stream, new_stream_status, request_read_stream, send_read, status_returned,
  stream_taken, stream_returned, tear_down, stop,
}
use aperture.Hashmail.Server.{
  new_hash_mail_server, new_cipher_box, init_stream, del_cipher_box, tear_down_stream, tear_down_at,
  look_up, look_up_read_stream, look_up_write_stream, request_at, give_back, send_end, returned,
  set_stream, tear_down_stale_stream,
}
use aperture.Hashmail.World.{
  World, Reach, started, stepped, box_created, box_deleted, end_given, call_left, fire, end_taken,
  start_world, one_more, one_less, run_callback,
}
use aperture.Hashmail.Exclusive.Sound.{look_up-eq-ok_iff, idle-armed, tear_down-calm}
use aperture.Hashmail.Reused.{armed-other}

abbrev tlv : Tlv
tlv = record { write_var_int = put_uint 8; read_var_int = read_uint 8 }

tlv-IsTlv : IsTlv tlv
tlv-IsTlv = record { read-write = λ n rest h. read_uint-put 8 n rest h }

abbrev messages : List Bytes
messages = codes "hello" ∷ [] ∷ codes "world" ∷ []

recv_stream-send_stream_example :
    let blocks = (collect [] (reads (send_stream tlv (sends messages)).0)).0 in
    ((recv_stream tlv (codes "box") (receives blocks)).sent ≡ messages)
    × ((recv_stream tlv (codes "box") (receives blocks)).answer ≡ none)
unfolding frame put_uint
recv_stream-send_stream_example =
    recv_stream-send_stream tlv tlv-IsTlv (codes "box") messages
      ((omega arith, λ h. cc), ((omega arith, λ h. cc), ((omega arith, λ h. cc), tt)))

-- With its prefix, a message of 4088 bytes fills a read.
abbrev full : Bytes
full = replicate 4088 7

full_size : length (frame tlv full) ≡ 4096
unfolding frame
full_size = omega (
  arith,
  length-append (put_uint 8 (length full)) full,
  length-put_uint 8 (length full),
  length-replicate {A = ℕ} 4088 7,
)

delivered-multiple_example :
    (delivered tlv (full ∷ []) ≡ []) × (delivered tlv (full ∷ codes "lost" ∷ []) ≡ ok full ∷ [])
unfolding frame put_uint
delivered-multiple_example =
    delivered-multiple tlv tlv-IsTlv full (codes "lost")
      (omega (arith, length-replicate {A = ℕ} 4088 7)) (omega (arith, full_size)) (λ h. cc)

abbrev server_config : HashMailServerConfig
server_config = record { msg_rate = pos 0; msg_burst_allowance = pos 0; stale_timeout = pos 0 }

abbrev box_request : CipherBoxAuth
box_request = record { desc = some (record { stream_id = some (codes "box") }); auth = some tt }

unfoldable steps : Unit {0}
unfolding new_hash_mail_server with_defaults new_cipher_box validate_auth_req id_of
    validate_stream_auth init_stream new_stream new_stream_status lookup put delete bytes_eq
    new_stream_id look_up look_up_read_stream look_up_write_stream request_at request_read_stream
    stream_taken give_back send_end send_read returned status_returned stream_returned
    del_cipher_box tear_down_stream tear_down_at tear_down stop tear_down_stale_stream
steps = tt

abbrev created : World
created = record (start_world server_config) {
  server = (new_cipher_box box_request (new_hash_mail_server server_config)).1;
}

created-Reach : Reach server_config created
created-Reach = stepped (start_world server_config) created started (box_created box_request)

abbrev taken : World
taken = record created {
  server = (look_up true (codes "box") created.server).1;
  holding = one_more true 0 created.holding;
}

taken-Reach : Reach server_config taken
unfolding steps
taken-Reach = stepped created taken created-Reach (end_taken true (codes "box") 0 refl)

look_up-eq-ok_iff_example :
    ((look_up true (codes "box") taken.server).0 ≡ ok 0) ↔ (taken.holding true 0 ≡ 0)
unfolding steps
look_up-eq-ok_iff_example =
    look_up-eq-ok_iff server_config taken taken-Reach true (codes "box") 0 refl

idle-armed_example : (created.server.heap 0).status.armed ≡ true
unfolding steps
idle-armed_example =
    idle-armed server_config created created-Reach (new_stream_id (codes "box")) 0 refl refl refl
      refl refl refl refl refl

tear_down-calm_example :
    ((auth : CipherBoxAuth) → (del_cipher_box auth taken.server).0 ≢ err panicked)
    × ((sid : Bytes) → (tear_down_stale_stream sid taken.server).0 ≢ err panicked)
tear_down-calm_example = tear_down-calm server_config taken taken-Reach refl

-- The mailbox is deleted under its reader, who leaves; it is created again and taken by another.
abbrev deleted : World
deleted = record taken { server = (del_cipher_box box_request taken.server).1 }

abbrev given_back : World
given_back = record deleted {
  server = set_stream 0 (record (deleted.server.heap 0) { read_free = true }) deleted.server;
  holding = one_less true 0 deleted.holding;
  leaving = one_more true 0 deleted.leaving;
}

abbrev left : World
left = record given_back {
  server = returned true 0 given_back.server;
  leaving = one_less true 0 given_back.leaving;
}

abbrev again : World
again = record left { server = (new_cipher_box box_request left.server).1 }

abbrev busy : World
busy = record again {
  server = (look_up true (codes "box") again.server).1;
  holding = one_more true 1 again.holding;
}

busy-Reach : Reach server_config busy
unfolding steps
busy-Reach =
    stepped again busy
      (stepped left again
        (stepped given_back left
          (stepped deleted given_back (stepped taken deleted taken-Reach (box_deleted box_request))
            (end_given true 0 given_back.server (omega arith) refl))
          (call_left true 0 (omega arith)))
        (box_created box_request))
      (end_taken true (codes "box") 1 refl)

-- The timer of the deleted stream is armed.
old_armed : (busy.server.heap 0).status.armed ≡ true
unfolding steps
old_armed = refl

armed-other_example :
    (◌≢◌ {A = ℕ} 1 0)
    × ((busy.server.heap 1).quit_closed ≡ false)
    × Reach server_config (run_callback 0 (fire 0 busy))
    × (((run_callback 0 (fire 0 busy)).server.heap 1).quit_closed ≡ true)
    × (lookup (codes "box") (run_callback 0 (fire 0 busy)).server.streams ≡ none)
unfolding steps
armed-other_example = armed-other server_config busy 0 1 busy-Reach refl refl old_armed refl
