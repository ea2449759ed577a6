-- ===== src/Hashmail/World.antt =====
-- The calls of hashmail_server.go side by side: every interleaving of the steps that take a lock or
-- use a channel.
use aperture.Prelude.{
  ℕ, suc, ◌-◌, ◌≤◌, ◌≡◌, Bool, true, false, ◌&&◌, if◌then◌else◌, ◌==◌, Bytes, ok, some,
}
use aperture.Hashmail.{HashMailServerConfig, CipherBoxAuth}
use aperture.Hashmail.Stream.{Stream}
use aperture.Hashmail.Server.{
  HashMailServer, new_hash_mail_server, new_cipher_box, del_cipher_box, tear_down_stale_stream,
  look_up, give_back, returned, stop_server, set_stream,
}

-- For the read side (true) and the write side (false), how many calls there are at an address.
abbrev pub Counts : Type 0
Counts = Bool → ℕ → ℕ

abbrev same_side : Bool → Bool → Bool
same_side true s = s
same_side false true = false
same_side false false = true

abbrev pub one_more : Bool → ℕ → Counts → Counts
one_more side a n s b = if same_side side s && a == b then suc (n s b) else n s b

abbrev pub one_less : Bool → ℕ → Counts → Counts
one_less side a n s b = if same_side side s && a == b then n s b - 1 else n s b

-- The server, the calls that hold an end of a stream, those that have sent it back and have not
-- told the status yet, the callbacks of timers that have fired, and which timers have ever fired;
-- `stopped` once Stop is called.
pub record World : Type 0 where
  pub server : HashMailServer
  pub holding : Counts
  pub leaving : Counts
  pub pending : ℕ → ℕ
  pub fired : ℕ → Bool
  pub stopped : Bool

abbrev pub start_world : HashMailServerConfig → World
start_world cfg = record {
  server = new_hash_mail_server cfg;
  holding = λ side a. 0;
  leaving = λ side a. 0;
  pending = λ a. 0;
  fired = λ a. false;
  stopped = false;
}

-- The timer of a stream fires.
abbrev pub disarmed : Stream → Stream
disarmed s = record s { status = record s.status { armed = false } }

abbrev pub fire : ℕ → World → World
fire a w = record w {
  server = set_stream a (disarmed (w.server.heap a)) w.server;
  pending = λ b. if a == b then suc (w.pending b) else w.pending b;
  fired = λ b. if a == b then true else w.fired b;
}

abbrev pub run_callback : ℕ → World → World
run_callback a w = record w {
  server = (tear_down_stale_stream (w.server.heap a).id w.server).1;
  pending = λ b. if a == b then w.pending b - 1 else w.pending b;
}

-- One step: a request, a call that takes an end or gives it back in two halves, a timer that is
-- armed, its callback, or the stop of the server.
pub data Step (w : World) : World → Type 0 where
  box_created :
      (init : CipherBoxAuth) → Step w (record w { server = (new_cipher_box init w.server).1 })
  box_deleted :
      (auth : CipherBoxAuth) → Step w (record w { server = (del_cipher_box auth w.server).1 })
  end_taken :
      (side : Bool) (id : Bytes) (a : ℕ)
      → (look_up side id w.server).0 ≡ ok a
      → Step w
          (record w { server = (look_up side id w.server).1; holding = one_more side a w.holding })
  end_given :
      (side : Bool) (a : ℕ) (h : HashMailServer)
      → 1 ≤ w.holding side a
      → give_back side a w.server ≡ some h
      → Step w (record w {
        server = h;
        holding = one_less side a w.holding;
        leaving = one_more side a w.leaving;
      })
  call_left :
      (side : Bool) (a : ℕ)
      → 1 ≤ w.leaving side a
      → Step w (record w { server = returned side a w.server; leaving = one_less side a w.leaving })
  timer_fired : (a : ℕ) → (w.server.heap a).status.armed ≡ true → Step w (fire a w)
  callback_run : (a : ℕ) → 1 ≤ w.pending a → Step w (run_callback a w)
  server_stopped : Step w (record w { server = (stop_server w.server).1; stopped = true })

pub data Reach (cfg : HashMailServerConfig) : World → Type 0 where
  started : Reach cfg (start_world cfg)
  stepped : (w w' : World) → Reach cfg w → Step w w' → Reach cfg w'
