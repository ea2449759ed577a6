-- ===== src/Hashmail/Exclusive/Sound.antt =====
-- What holds of hashmail_server.go in every state that the interleavings of its calls reach.
use aperture.Prelude.{
  ℕ, ◌≤◌, ◌≡◌, ◌≢◌, ◌↔◌, refl, Bool, true, false, Bytes, Option, none, some, panicked, ok, err,
  Result-cases, is_ok, is_err, arith,
}
use aperture.Go.Maps.{lookup}
use aperture.Hashmail.{
  id_of, HashMailServerConfig, CipherBoxAuth, validate_auth_req, validate_stream_auth,
  new_stream_id,
}
use aperture.Hashmail.Stream.{request_read_stream, request_write_stream, send_read, send_write}
use aperture.Hashmail.Server.{
  HashMailServer, set_stream, del_cipher_box, tear_down_stale_stream, tear_down_at,
  tear_down_stream, look_up, look_up_read_stream, look_up_write_stream, request_at, give_back,
  send_end,
}
use aperture.Hashmail.World.{
  World, Step, Reach, box_created, box_deleted, end_taken, end_given, call_left, timer_fired,
  callback_run, server_stopped, started, stepped,
}
use aperture.Hashmail.Exclusive.Changed.{IsSound, start_world-IsSound}
use aperture.Hashmail.Exclusive.Calls.{
  end_taken-IsSound, end_given-IsSound, call_left-IsSound, timer_fired-IsSound,
}
use aperture.Hashmail.Exclusive.Boxes.{
  new_cipher_box-IsSound, del_cipher_box-IsSound, stale-IsSound, stop_server-IsSound,
  tear_down-parts,
}

-- Nothing of a sound server depends on the callbacks that are to run.
forget_pending :
    (w : World) (pending : ℕ → ℕ) → IsSound w → IsSound (record w { pending = pending })
forget_pending w pending sound = record {
  kept = sound.kept;
  fresh = sound.fresh;
  placed = sound.placed;
  undisturbed = sound.undisturbed;
}

Step-IsSound : (w w' : World) → Step w w' → IsSound w → IsSound w'
Step-IsSound w _ (box_created init) sound = new_cipher_box-IsSound w sound init
Step-IsSound w _ (box_deleted auth) sound = del_cipher_box-IsSound w sound auth
Step-IsSound w _ (end_taken side id a h) sound = end_taken-IsSound w sound side id a h
Step-IsSound w _ (end_given side a h held e) sound = end_given-IsSound w sound side a h held e
Step-IsSound w _ (call_left side a h) sound = call_left-IsSound w sound side a h
Step-IsSound w _ (timer_fired a h) sound = timer_fired-IsSound w sound a
Step-IsSound w _ (callback_run a h) sound =
    forget_pending _ _ (stale-IsSound w sound (w.server.heap a).id)
Step-IsSound w _ server_stopped sound = stop_server-IsSound w sound

pub Reach-IsSound : (cfg : HashMailServerConfig) (w : World) → Reach cfg w → IsSound w
Reach-IsSound cfg _ started = start_world-IsSound cfg
Reach-IsSound cfg w' (stepped w _ r s) = Step-IsSound w w' s (Reach-IsSound cfg w r)

validate_auth_req-calm : (req : CipherBoxAuth) → validate_auth_req req ≢ err panicked
unfolding validate_auth_req id_of
validate_auth_req-calm req h = ground (arith, h)

module _ (cfg : HashMailServerConfig) (w : World) (reach : Reach cfg w) where
  sound : IsSound w
  sound = Reach-IsSound cfg w reach

  read_request :
      (a : ℕ) → ((request_read_stream (w.server.heap a)).0 ≡ ok tt) ↔ (w.holding true a ≡ 0)
  unfolding request_read_stream
  read_request a = ground (arith, sound.kept a)

  write_request :
      (a : ℕ) → ((request_write_stream (w.server.heap a)).0 ≡ ok tt) ↔ (w.holding false a ≡ 0)
  unfolding request_write_stream
  write_request a = ground (arith, sound.kept a)

  -- One reader and one writer at most: in every state that is reached, a mailbox in the map gives
  -- its read end (its write end) to a call just when no other call holds it.
  pub look_up-eq-ok_iff :
      (side : Bool) (id : Bytes) (a : ℕ)
      → lookup (new_stream_id id) w.server.streams ≡ some a
      → ((look_up side id w.server).0 ≡ ok a) ↔ (w.holding side a ≡ 0)
  unfolding look_up look_up_read_stream look_up_write_stream request_at
  look_up-eq-ok_iff true id a l = elim (Result-cases (request_read_stream (w.server.heap a)).0) [
    | is_ok u k ↦ ground (arith, l, k, read_request a)
    | is_err e k ↦ ground (arith, l, k, read_request a)
  ]
  look_up-eq-ok_iff false id a l = elim (Result-cases (request_write_stream (w.server.heap a)).0) [
    | is_ok u k ↦ ground (arith, l, k, write_request a)
    | is_err e k ↦ ground (arith, l, k, write_request a)
  ]

  -- Who holds an end never blocks when it gives the end back.
  pub give_back-some :
      (side : Bool) (a : ℕ)
      → 1 ≤ w.holding side a
      → (h : HashMailServer) × (give_back side a w.server ≡ some h)
  unfolding give_back send_end send_read send_write
  give_back-some true a h = (
    set_stream a (record (w.server.heap a) { read_free = true }) w.server,
    ground (arith, sound.kept a),
  )
  give_back-some false a h = (
    set_stream a (record (w.server.heap a) { write_free = true }) w.server,
    ground (arith, sound.kept a),
  )

  -- A mailbox that nobody uses is going to be torn down: in every state that is reached before
  -- Stop, the stream of a mailbox in the map whose ends no call holds or is giving back has its
  -- timer armed, if the timer has not fired before and timers are not disabled.
  pub idle-armed :
      (id : Bytes) (a : ℕ)
      → w.stopped ≡ false
      → lookup id w.server.streams ≡ some a
      → (w.server.heap a).status.disabled ≡ false
      → w.fired a ≡ false
      → w.holding true a ≡ 0
      → w.holding false a ≡ 0
      → w.leaving true a ≡ 0
      → w.leaving false a ≡ 0
      → (w.server.heap a).status.armed ≡ true
  idle-armed id a c l d f hr hw lr lw = ground (arith, sound.kept a, sound.undisturbed id a c l)

  tear_down_at-calm :
      (sid : Bytes) (o : Option ℕ)
      → w.stopped ≡ false
      → lookup sid w.server.streams ≡ o
      → (tear_down_at sid o w.server).0 ≢ err panicked
  unfolding tear_down_at
  tear_down_at-calm sid none c l h = absurd (cc h)
  tear_down_at-calm sid (some a) c l h =
      ground (arith, tear_down-parts (w.server.heap a), sound.undisturbed sid a c l, h)

  -- Before Stop, no stream is torn down twice, in any interleaving: neither the deletion of a
  -- mailbox nor the callback of a timer panics.
  pub tear_down-calm :
      w.stopped ≡ false
      → ((auth : CipherBoxAuth) → (del_cipher_box auth w.server).0 ≢ err panicked)
        × ((sid : Bytes) → (tear_down_stale_stream sid w.server).0 ≢ err panicked)
  unfolding del_cipher_box tear_down_stale_stream tear_down_stream validate_stream_auth
  tear_down-calm c = (
    λ auth h. deleted auth h,
    λ sid h. tear_down_at-calm sid (lookup sid w.server.streams) c refl h,
  )
    where
      deleted : (auth : CipherBoxAuth) → (del_cipher_box auth w.server).0 ≢ err panicked
      deleted auth h = elim (Result-cases (validate_auth_req auth)) [
        | is_err e k ↦ validate_auth_req-calm auth (ground (arith, k, h))
        | is_ok id k ↦
            tear_down_at-calm (new_stream_id id) (lookup (new_stream_id id) w.server.streams) c refl
              (ground (arith, k, h))
      ]
