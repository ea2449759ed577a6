-- ===== src/Hashmail/Exclusive/Calls.antt =====
-- The calls of hashmail_server.go that take or give back an end, and the timers, keep the server
-- sound.
use aperture.Prelude.{
  ℕ, ◌≤◌, ◌<◌, ◌≡◌, ◌⊎◌, inl, inr, refl, subst, Bool, true, false, Bytes, Option, none, some, ltb,
  Result, ok, err, Bool-cases, arith,
}
use aperture.Go.Maps.{lookup}
use aperture.Hashmail.{new_stream_id}
use aperture.Hashmail.Stream.{
  Stream, request_read_stream, request_write_stream, send_read, send_write, status_returned,
}
use aperture.Hashmail.Server.{
  given, HashMailServer, set_stream, look_up, look_up_read_stream, look_up_write_stream, request_at,
  give_back, send_end, put_back, returned,
}
use aperture.Hashmail.World.{World, one_more, one_less, fire, disarmed}
use aperture.Hashmail.Exclusive.Kept.{
  request_read-IsKept, request_write-IsKept, send_read-IsKept, send_write-IsKept,
  read_returned-IsKept, write_returned-IsKept, disarmed-IsKept,
}
use aperture.Hashmail.Exclusive.Changed.{IsSound, set_stream-IsSound}

given-ok : (b a : ℕ) (r : Result (Unit {0})) → given b r ≡ ok a → (b ≡ a) × (r ≡ ok tt)
given-ok b a (ok u) h = (cc, refl)
given-ok b a (err e) h = absurd (cc h)

request_read-parts :
    (s : Stream)
    → ((request_read_stream s).1.id ≡ s.id)
      × ((request_read_stream s).1.quit_closed ≡ s.quit_closed)
unfolding request_read_stream
request_read-parts s = ground arith

request_write-parts :
    (s : Stream)
    → ((request_write_stream s).1.id ≡ s.id)
      × ((request_write_stream s).1.quit_closed ≡ s.quit_closed)
unfolding request_write_stream
request_write-parts s = ground arith

send_read-parts :
    (s t : Stream) → send_read s ≡ some t → (t.id ≡ s.id) × (t.quit_closed ≡ s.quit_closed)
unfolding send_read
send_read-parts s t h = ground arith

send_write-parts :
    (s t : Stream) → send_write s ≡ some t → (t.id ≡ s.id) × (t.quit_closed ≡ s.quit_closed)
unfolding send_write
send_write-parts s t h = ground arith

status_returned-parts :
    (side : Bool) (s : Stream)
    → ((status_returned side s).id ≡ s.id) × ((status_returned side s).quit_closed ≡ s.quit_closed)
unfolding status_returned
status_returned-parts side s = (refl, refl)

module _ (w : World) (sound : IsSound w) where
  read_taken-IsSound :
      (sid : Bytes) (o : Option ℕ) (a : ℕ)
      → lookup sid w.server.streams ≡ o
      → (request_at request_read_stream o w.server).0 ≡ ok a
      → IsSound (record w {
        server = (request_at request_read_stream o w.server).1;
        holding = one_more true a w.holding;
      })
  unfolding request_at
  read_taken-IsSound sid none a l h = absurd (cc h)
  read_taken-IsSound sid (some b) a l h =
      let s : Stream = w.server.heap b in
      let t : Stream = (request_read_stream s).1 in
      let (same, taken) = given-ok b a (request_read_stream s).0 h in
      let after =
        request_read-IsKept (w.holding true b) (w.holding false b) (w.leaving true b)
          (w.leaving false b) (w.fired b) s (sound.kept b) taken in
      subst
        (λ c.
          IsSound
            (record w { server = set_stream b t w.server; holding = one_more true c w.holding }))
        same
        (set_stream-IsSound w sound b t (one_more true b w.holding) w.leaving w.pending w.fired
          (ground (arith, after)) (λ c n. ground (arith, n)) (inl (sound.placed sid b l).0)
          (request_read-parts s).0 (request_read-parts s).1)

  write_taken-IsSound :
      (sid : Bytes) (o : Option ℕ) (a : ℕ)
      → lookup sid w.server.streams ≡ o
      → (request_at request_write_stream o w.server).0 ≡ ok a
      → IsSound (record w {
        server = (request_at request_write_stream o w.server).1;
        holding = one_more false a w.holding;
      })
  unfolding request_at
  write_taken-IsSound sid none a l h = absurd (cc h)
  write_taken-IsSound sid (some b) a l h =
      let s : Stream = w.server.heap b in
      let t : Stream = (request_write_stream s).1 in
      let (same, taken) = given-ok b a (request_write_stream s).0 h in
      let after =
        request_write-IsKept (w.holding true b) (w.holding false b) (w.leaving true b)
          (w.leaving false b) (w.fired b) s (sound.kept b) taken in
      subst
        (λ c.
          IsSound
            (record w { server = set_stream b t w.server; holding = one_more false c w.holding }))
        same
        (set_stream-IsSound w sound b t (one_more false b w.holding) w.leaving w.pending w.fired
          (ground (arith, after)) (λ c n. ground (arith, n)) (inl (sound.placed sid b l).0)
          (request_write-parts s).0 (request_write-parts s).1)

  pub end_taken-IsSound :
      (side : Bool) (id : Bytes) (a : ℕ)
      → (look_up side id w.server).0 ≡ ok a
      → IsSound
          (record w { server = (look_up side id w.server).1; holding = one_more side a w.holding })
  unfolding look_up look_up_read_stream look_up_write_stream
  end_taken-IsSound true id a h = read_taken-IsSound (new_stream_id id) _ a refl h
  end_taken-IsSound false id a h = write_taken-IsSound (new_stream_id id) _ a refl h

  -- Who holds an end has the address of a stream in use.
  held-used : (side : Bool) (a : ℕ) → 1 ≤ w.holding side a → a < w.server.used
  held-used side a h = elim (Bool-cases (ltb a w.server.used)) [
    | inl y ↦ ground (arith, y)
    | inr n ↦ absurd (ground (arith, n, sound.fresh a (ground (arith, n)), h))
  ]

  put_back-some :
      (a : ℕ) (o : Option Stream) (h : HashMailServer)
      → put_back a o w.server ≡ some h
      → (t : Stream) × (o ≡ some t) × (set_stream a t w.server ≡ h)
  put_back-some a none h e = absurd (cc e)
  put_back-some a (some t) h e = (t, refl, cc)

  pub end_given-IsSound :
      (side : Bool) (a : ℕ) (h : HashMailServer)
      → 1 ≤ w.holding side a
      → give_back side a w.server ≡ some h
      → IsSound (record w {
        server = h;
        holding = one_less side a w.holding;
        leaving = one_more side a w.leaving;
      })
  unfolding give_back send_end
  end_given-IsSound true a h held e =
      let (t, sent, same) = put_back-some a (send_read (w.server.heap a)) h e in
      let parts = send_read-parts (w.server.heap a) t sent in
      let after =
        send_read-IsKept (w.holding true a) (w.holding false a) (w.leaving true a)
          (w.leaving false a) (w.fired a) (w.server.heap a) (sound.kept a) t held sent in
      subst
        (λ g. IsSound (record w {
          server = g;
          holding = one_less true a w.holding;
          leaving = one_more true a w.leaving;
        }))
        same
        (set_stream-IsSound w sound a t (one_less true a w.holding) (one_more true a w.leaving)
          w.pending w.fired (ground (arith, after)) (λ c n. ground (arith, n))
          (inl (held-used true a held)) parts.0 parts.1)
  end_given-IsSound false a h held e =
      let (t, sent, same) = put_back-some a (send_write (w.server.heap a)) h e in
      let parts = send_write-parts (w.server.heap a) t sent in
      let after =
        send_write-IsKept (w.holding true a) (w.holding false a) (w.leaving true a)
          (w.leaving false a) (w.fired a) (w.server.heap a) (sound.kept a) t held sent in
      subst
        (λ g. IsSound (record w {
          server = g;
          holding = one_less false a w.holding;
          leaving = one_more false a w.leaving;
        }))
        same
        (set_stream-IsSound w sound a t (one_less false a w.holding) (one_more false a w.leaving)
          w.pending w.fired (ground (arith, after)) (λ c n. ground (arith, n))
          (inl (held-used false a held)) parts.0 parts.1)

  -- An address is in use, or nobody holds it.
  pub used-or_free :
      (a : ℕ) → (a < w.server.used) ⊎ ((w.holding true a ≡ 0) × (w.holding false a ≡ 0))
  used-or_free a = elim (Bool-cases (ltb a w.server.used)) [
    | inl y ↦ inl (ground (arith, y))
    | inr n ↦ inr (sound.fresh a (ground (arith, n)))
  ]

  pub call_left-IsSound :
      (side : Bool) (a : ℕ)
      → 1 ≤ w.leaving side a
      → IsSound
          (record w { server = returned side a w.server; leaving = one_less side a w.leaving })
  unfolding returned
  call_left-IsSound true a h =
      let parts = status_returned-parts true (w.server.heap a) in
      let after =
        read_returned-IsKept (w.holding true a) (w.holding false a) (w.leaving true a)
          (w.leaving false a) (w.fired a) (w.server.heap a) (sound.kept a) in
      set_stream-IsSound w sound a (status_returned true (w.server.heap a)) w.holding
        (one_less true a w.leaving) w.pending w.fired (ground (arith, after))
        (λ c n. ground (arith, n)) (used-or_free a) parts.0 parts.1
  call_left-IsSound false a h =
      let parts = status_returned-parts false (w.server.heap a) in
      let after =
        write_returned-IsKept (w.holding true a) (w.holding false a) (w.leaving true a)
          (w.leaving false a) (w.fired a) (w.server.heap a) (sound.kept a) in
      set_stream-IsSound w sound a (status_returned false (w.server.heap a)) w.holding
        (one_less false a w.leaving) w.pending w.fired (ground (arith, after))
        (λ c n. ground (arith, n)) (used-or_free a) parts.0 parts.1

  pub timer_fired-IsSound : (a : ℕ) → IsSound (fire a w)
  timer_fired-IsSound a =
      let after =
        disarmed-IsKept (w.holding true a) (w.holding false a) (w.leaving true a)
          (w.leaving false a) (w.fired a) (w.server.heap a) (sound.kept a) in
      set_stream-IsSound w sound a (disarmed (w.server.heap a)) w.holding w.leaving
        (fire a w).pending (fire a w).fired (ground (arith, after)) (λ c n. ground (arith, n))
        (used-or_free a) refl refl
