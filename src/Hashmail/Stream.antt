-- ===== src/Hashmail/Stream.antt =====
-- stream and streamStatus of hashmail_server.go: who holds the ends of a stream, and its timer.
use aperture.Prelude.{
  Bool, true, false, ◌&&◌, not, if◌then◌else◌, Bytes, Option, none, some, fail, panicked, Result,
  ok, err, ℤ, pos, ltb_ℤ,
}
use aperture.Hashmail.{HashMailServerConfig}

-- streamStatus; the timer is armed while it is to fire.
pub record StreamStatus : Type 0 where
  pub disabled : Bool
  pub stale_timeout : ℤ
  pub armed : Bool
  pub read_stream_occupied : Bool
  pub write_stream_occupied : Bool

-- newStreamStatus
unfoldable pub new_stream_status : ℤ → StreamStatus
new_stream_status stale_timeout =
    let negative = ltb_ℤ stale_timeout (pos 0) in
    record {
      disabled = negative;
      stale_timeout = if negative then pos 0 else stale_timeout;
      armed = not negative;
      read_stream_occupied = false;
      write_stream_occupied = false;
    }

-- stop
unfoldable pub stop : StreamStatus → StreamStatus
stop s = if s.disabled then s else record s { armed = false }

abbrev pub occupy : Bool → Bool → StreamStatus → StreamStatus
occupy true occupied s = record s { read_stream_occupied = occupied }
occupy false occupied s = record s { write_stream_occupied = occupied }

-- streamTaken
unfoldable pub stream_taken : Bool → StreamStatus → StreamStatus
stream_taken read s = if s.disabled then s else record (occupy read true s) { armed = false }

abbrev reset_if_idle : StreamStatus → StreamStatus
reset_if_idle s =
    if not s.read_stream_occupied && not s.write_stream_occupied
    then record s { armed = true }
    else s

-- streamReturned
unfoldable pub stream_returned : Bool → StreamStatus → StreamStatus
stream_returned read s = if s.disabled then s else reset_if_idle (occupy read false s)

-- stream: whether the two channels hold the read and the write end, and whether `quit` is closed.
pub record Stream : Type 0 where
  pub id : Bytes
  pub msg_rate : ℤ
  pub msg_burst_allowance : ℤ
  pub status : StreamStatus
  pub read_free : Bool
  pub write_free : Bool
  pub quit_closed : Bool

-- newStream
unfoldable pub new_stream : Bytes → HashMailServerConfig → Stream
unfolding new_stream_status
new_stream id cfg = record {
  id = id;
  msg_rate = cfg.msg_rate;
  msg_burst_allowance = cfg.msg_burst_allowance;
  status = new_stream_status cfg.stale_timeout;
  read_free = true;
  write_free = true;
  quit_closed = false;
}

-- RequestReadStream
unfoldable pub request_read_stream : Stream → Result (Unit {0}) × Stream
unfolding stream_taken
request_read_stream s =
    if s.read_free
    then (ok tt, record s { read_free = false; status = stream_taken true s.status })
    else (err fail, s)

-- RequestWriteStream
unfoldable pub request_write_stream : Stream → Result (Unit {0}) × Stream
unfolding stream_taken
request_write_stream s =
    if s.write_free
    then (ok tt, record s { write_free = false; status = stream_taken false s.status })
    else (err fail, s)

-- The first halves of ReturnReadStream and of ReturnWriteStream: the end goes back to its channel;
-- `none` when this blocks, since the channel is full.
unfoldable pub send_read : Stream → Option Stream
send_read s = if s.read_free then none else some (record s { read_free = true })

unfoldable pub send_write : Stream → Option Stream
send_write s = if s.write_free then none else some (record s { write_free = true })

-- Their second halves, before which others may take the end.
unfoldable pub status_returned : Bool → Stream → Stream
unfolding stream_returned
status_returned read s = record s { status = stream_returned read s.status }

-- tearDown: the pipe's Close does not fail, and a second close of `quit` panics.
unfoldable pub tear_down : Stream → Result (Unit {0}) × Stream
unfolding stop
tear_down s =
    let stopped = stop s.status in
    if s.quit_closed
    then (err panicked, record s { status = stopped })
    else (ok tt, record s { status = stopped; quit_closed = true })
