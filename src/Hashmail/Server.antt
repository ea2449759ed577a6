-- ===== src/Hashmail/Server.antt =====
-- The operations of hashMailServer in hashmail_server.go. Streams are objects behind pointers: a
-- call keeps the one it works with when the map no longer has it.
use aperture.Prelude.{
  ℕ, suc, Bool, true, false, List, [], ◌∷◌, if◌then◌else◌, ◌==◌, Bytes, Option, none, some, fail,
  panicked, Result, ok, err, pos,
}
use aperture.Go.Maps.{lookup, put, delete}
use aperture.Hashmail.{
  HashMailServerConfig, with_defaults, CipherBoxAuth, validate_auth_req, validate_stream_auth,
  new_stream_id,
}
use aperture.Hashmail.Stream.{
  Stream, new_stream, request_read_stream, request_write_stream, send_read, send_write,
  status_returned, tear_down,
}

-- The objects at their addresses.
abbrev pub Heap : Type 0
Heap = ℕ → Stream

abbrev pub set : ℕ → Stream → Heap → Heap
set a s heap b = if a == b then s else heap b

-- hashMailServer, with the heap; addresses from `used` on are free.
pub record HashMailServer : Type 0 where
  pub heap : Heap
  pub used : ℕ
  pub streams : List (Bytes × ℕ)
  pub cfg : HashMailServerConfig

-- What is behind an address that is not in use.
abbrev pub unallocated : Stream
unallocated = record {
  id = [];
  msg_rate = pos 0;
  msg_burst_allowance = pos 0;
  status = record {
    disabled = true;
    stale_timeout = pos 0;
    armed = false;
    read_stream_occupied = false;
    write_stream_occupied = false;
  };
  read_free = true;
  write_free = true;
  quit_closed = false;
}

-- newHashMailServer
unfoldable pub new_hash_mail_server : HashMailServerConfig → HashMailServer
unfolding with_defaults
new_hash_mail_server cfg = record {
  heap = λ a. unallocated;
  used = 0;
  streams = [];
  cfg = with_defaults cfg;
}

abbrev pub put_stream : Bytes → HashMailServer → HashMailServer
put_stream sid h = record {
  heap = set h.used (new_stream sid h.cfg) h.heap;
  used = suc h.used;
  streams = put sid h.used h.streams;
  cfg = h.cfg;
}

-- InitStream, with the id of the descriptor
unfoldable pub init_stream : Bytes → HashMailServer → Result (Unit {0}) × HashMailServer
init_stream stream_id h =
    let sid = new_stream_id stream_id in
    elim (lookup sid h.streams) [ some a ↦ (err fail, h) | none ↦ (ok tt, put_stream sid h) ]

abbrev pub set_stream : ℕ → Stream → HashMailServer → HashMailServer
set_stream a s h = record h { heap = set a s h.heap }

abbrev pub given : ℕ → Result (Unit {0}) → Result ℕ
given a (err e) = err e
given a (ok u) = ok a

unfoldable pub request_at :
    (Stream → Result (Unit {0}) × Stream) → Option ℕ → HashMailServer → Result ℕ × HashMailServer
request_at request none h = (err fail, h)
request_at request (some a) h = let (r, s) = request (h.heap a) in (given a r, set_stream a s h)

-- LookUpReadStream
unfoldable pub look_up_read_stream : Bytes → HashMailServer → Result ℕ × HashMailServer
unfolding request_at
look_up_read_stream id h = request_at request_read_stream (lookup (new_stream_id id) h.streams) h

-- LookUpWriteStream
unfoldable pub look_up_write_stream : Bytes → HashMailServer → Result ℕ × HashMailServer
unfolding request_at
look_up_write_stream id h = request_at request_write_stream (lookup (new_stream_id id) h.streams) h

abbrev pub put_back : ℕ → Option Stream → HashMailServer → Option HashMailServer
put_back a none h = none
put_back a (some s) h = some (set_stream a s h)

-- RequestReadStream or RequestWriteStream, and their ReturnStream in two halves
unfoldable pub look_up : Bool → Bytes → HashMailServer → Result ℕ × HashMailServer
unfolding look_up_read_stream look_up_write_stream
look_up true id h = look_up_read_stream id h
look_up false id h = look_up_write_stream id h

unfoldable pub send_end : Bool → Stream → Option Stream
unfolding send_read send_write
send_end true s = send_read s
send_end false s = send_write s

unfoldable pub give_back : Bool → ℕ → HashMailServer → Option HashMailServer
unfolding send_end
give_back read a h = put_back a (send_end read (h.heap a)) h

unfoldable pub returned : Bool → ℕ → HashMailServer → HashMailServer
returned read a h = set_stream a (status_returned read (h.heap a)) h

-- The stream is deleted once it is torn down.
abbrev pub delete_torn :
    Bytes → ℕ → Result (Unit {0}) × Stream → HashMailServer → Result (Unit {0}) × HashMailServer
delete_torn sid a (err e, s) h = (err e, set_stream a s h)
delete_torn sid a (ok u, s) h =
    (ok tt, record (set_stream a s h) { streams = delete sid h.streams })

unfoldable pub tear_down_at : Bytes → Option ℕ → HashMailServer → Result (Unit {0}) × HashMailServer
tear_down_at sid none h = (err fail, h)
tear_down_at sid (some a) h = delete_torn sid a (tear_down (h.heap a)) h

-- tearDownStaleStream
unfoldable pub tear_down_stale_stream : Bytes → HashMailServer → Result (Unit {0}) × HashMailServer
unfolding tear_down_at
tear_down_stale_stream sid h = tear_down_at sid (lookup sid h.streams) h

-- TearDownStream: the stream's own test of the mechanism accepts every one.
unfoldable pub tear_down_stream :
    Bytes → CipherBoxAuth → HashMailServer → Result (Unit {0}) × HashMailServer
unfolding tear_down_at
tear_down_stream id auth h =
    let sid = new_stream_id id in
    elim (validate_stream_auth auth) [
      | err e ↦ elim (lookup sid h.streams) [ none ↦ (err fail, h) | some a ↦ (err e, h) ]
      | ok u ↦ tear_down_at sid (lookup sid h.streams) h
    ]

-- NewCipherBox
unfoldable pub new_cipher_box : CipherBoxAuth → HashMailServer → Result (Unit {0}) × HashMailServer
unfolding init_stream
new_cipher_box init h = elim (validate_auth_req init) [
  | err e ↦ (err e, h)
  | ok id ↦ elim (validate_stream_auth init) [ err e ↦ (err e, h) | ok u ↦ init_stream id h ]
]

-- DelCipherBox
unfoldable pub del_cipher_box : CipherBoxAuth → HashMailServer → Result (Unit {0}) × HashMailServer
unfolding tear_down_stream
del_cipher_box auth h = elim (validate_auth_req auth) [
  | err e ↦ (err e, h)
  | ok id ↦ tear_down_stream id auth h
]

abbrev pub is_panic : Result (Unit {0}) → Bool
is_panic (err panicked) = true
is_panic (err _) = false
is_panic (ok u) = false

unfoldable pub tear_down_all : List (Bytes × ℕ) → Heap → Result (Unit {0}) × Heap
tear_down_all [] heap = (ok tt, heap)
tear_down_all ((id, a) ∷ rest) heap =
    let (r, s) = tear_down (heap a) in
    elim (is_panic r) [ true ↦ (r, set a s heap) | false ↦ tear_down_all rest (set a s heap) ]

-- Stop: the streams stay in the map, and `quit` is not closed. Other errors than panics are logged.
unfoldable pub stop_server : HashMailServer → Result (Unit {0}) × HashMailServer
unfolding tear_down_all
stop_server h = let (r, heap) = tear_down_all h.streams h.heap in (r, record h { heap = heap })
