-- ===== src/Hashmail/Exclusive/Kept.antt =====
-- What each operation of a stream of hashmail_server.go keeps, beside the calls that hold its ends.
use aperture.Prelude.{
  ℕ, suc, ◌+◌, ◌-◌, ◌≤◌, ◌≡◌, ◌⊎◌, Bool, true, false, ◌||◌, if◌then◌else◌, Bytes, some, ok, arith,
}
use aperture.Hashmail.{HashMailServerConfig}
use aperture.Hashmail.Stream.{
  Stream, new_stream, new_stream_status, request_read_stream, request_write_stream, send_read,
  send_write, status_returned, stream_taken, stream_returned, tear_down, stop,
}
use aperture.Hashmail.World.{disarmed}

-- The timer of a stream that nobody occupies is armed, unless it has fired before, the stream is
-- torn down or timers are disabled.
abbrev pub is_watched : Bool → Stream → Bool
is_watched fired s =
    s.status.disabled
    || (s.quit_closed
        || (fired
            || (s.status.read_stream_occupied
                || (s.status.write_stream_occupied || s.status.armed))))

-- An end is held by the one call that has taken it, or is in its channel; who occupies a stream is
-- a call that holds the end or has just sent it back, while timers are not disabled. The counts are the calls that hold the read
-- and the write end, and those that leave.
abbrev pub IsKept : ℕ → ℕ → ℕ → ℕ → Bool → Stream → Type 0
IsKept hr hw lr lw fired s =
    (hr + (if s.read_free then 1 else 0) ≡ 1)
    × (hw + (if s.write_free then 1 else 0) ≡ 1)
    × ((s.status.read_stream_occupied ≡ false) ⊎ ((s.status.disabled ≡ true) ⊎ (1 ≤ hr + lr)))
    × ((s.status.write_stream_occupied ≡ false) ⊎ ((s.status.disabled ≡ true) ⊎ (1 ≤ hw + lw)))
    × (is_watched fired s ≡ true)

module _ (hr hw lr lw : ℕ) (fired : Bool) (s : Stream) (kept : IsKept hr hw lr lw fired s) where
  pub request_read-IsKept :
      (request_read_stream s).0 ≡ ok tt → IsKept (suc hr) hw lr lw fired (request_read_stream s).1
  unfolding request_read_stream stream_taken
  request_read-IsKept h = ground arith

  pub request_write-IsKept :
      (request_write_stream s).0 ≡ ok tt → IsKept hr (suc hw) lr lw fired (request_write_stream s).1
  unfolding request_write_stream stream_taken
  request_write-IsKept h = ground arith

  pub send_read-IsKept :
      (t : Stream) → 1 ≤ hr → send_read s ≡ some t → IsKept (hr - 1) hw (suc lr) lw fired t
  unfolding send_read
  send_read-IsKept t h e = ground arith

  pub send_write-IsKept :
      (t : Stream) → 1 ≤ hw → send_write s ≡ some t → IsKept hr (hw - 1) lr (suc lw) fired t
  unfolding send_write
  send_write-IsKept t h e = ground arith

  pub read_returned-IsKept : IsKept hr hw (lr - 1) lw fired (status_returned true s)
  unfolding status_returned stream_returned
  read_returned-IsKept = ground arith

  pub write_returned-IsKept : IsKept hr hw lr (lw - 1) fired (status_returned false s)
  unfolding status_returned stream_returned
  write_returned-IsKept = ground arith

  pub tear_down-IsKept : IsKept hr hw lr lw fired (tear_down s).1
  unfolding tear_down stop
  tear_down-IsKept = ground arith

  pub disarmed-IsKept : IsKept hr hw lr lw true (disarmed s)
  disarmed-IsKept = ground arith

pub new-IsKept :
    (lr lw : ℕ) (fired : Bool) (id : Bytes) (cfg : HashMailServerConfig)
    → IsKept 0 0 lr lw fired (new_stream id cfg)
unfolding new_stream new_stream_status
new-IsKept lr lw fired id cfg = ground arith
