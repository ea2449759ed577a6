-- ===== src/Hashmail/Exclusive/Boxes.antt =====
-- The creation and the deletion of mailboxes in hashmail_server.go keep the server sound.
use aperture.Prelude.{
  ◌≢◌, panicked, ◌∙◌, ℕ, ◌≡◌, ◌⊎◌, inl, inr, refl, sym, true, false, ◌==◌, Bytes, List, [], ◌∷◌,
  Option, none, some, Result, ok, err, Result-cases, is_ok, is_err, Bool-cases, Option-cases,
  bytes_eq_iff, bytes_eq, arith,
}
use aperture.Go.Maps.{lookup, lookup-put, lookup-delete, delete}
use aperture.Hashmail.{
  HashMailServerConfig, CipherBoxAuth, validate_auth_req, validate_stream_auth, new_stream_id,
}
use aperture.Hashmail.Stream.{Stream, new_stream, tear_down}
use aperture.Hashmail.Server.{
  is_panic, put_stream, set_stream, init_stream, new_cipher_box, del_cipher_box,
  tear_down_stale_stream, tear_down_at, tear_down_stream, delete_torn, stop_server, tear_down_all,
}
use aperture.Hashmail.World.{World}
use aperture.Hashmail.Exclusive.Kept.{IsKept, tear_down-IsKept, new-IsKept}
use aperture.Hashmail.Exclusive.Changed.{IsSound, change-IsSound, set_stream-IsSound}
use aperture.Hashmail.Exclusive.Calls.{used-or_free}

new_stream-parts :
    (id : Bytes) (cfg : HashMailServerConfig)
    → ((new_stream id cfg).id ≡ id) × ((new_stream id cfg).quit_closed ≡ false)
unfolding new_stream
new_stream-parts id cfg = (refl, refl)

-- A tear-down keeps the id, fails only by a panic when the stream was torn down before, and leaves
-- it torn down.
pub tear_down-parts :
    (s : Stream)
    → ((tear_down s).1.id ≡ s.id)
      × ((tear_down s).1.quit_closed ≡ true)
      × (((tear_down s).0 ≡ ok tt) ⊎ (((tear_down s).0 ≡ err panicked) × (s.quit_closed ≡ true)))
unfolding tear_down
tear_down-parts s = ground arith

module _ (w : World) (sound : IsSound w) where
  pub put_stream-IsSound :
      (sid : Bytes)
      → lookup sid w.server.streams ≡ none
      → IsSound (record w { server = put_stream sid w.server })
  put_stream-IsSound sid l =
      let n : ℕ = w.server.used in
      let s : Stream = new_stream sid w.server.cfg in
      record {
        kept = λ b. elim (Bool-cases (n == b)) [
          | inl e ↦
              let same : n ≡ b = ground (arith, e) in
              ground (
                arith,
                e,
                same,
                sound.fresh n (omega arith),
                new-IsKept (w.leaving true b) (w.leaving false b) (w.fired b) sid w.server.cfg,
              )
          | inr m ↦ ground (arith, m, sound.kept b)
        ];
        fresh = λ b h. sound.fresh b (omega (arith, h));
        placed = λ id b h. elim (Bool-cases (bytes_eq sid id)) [
          | inl e ↦
              let same : sid ≡ id = (bytes_eq_iff sid id).0 e in
              let at : n ≡ b = ground (arith, lookup-put sid id n w.server.streams, e, h) in
              ground (arith, at, same, new_stream-parts sid w.server.cfg)
          | inr m ↦
              let old =
                sound.placed id b (ground (arith, lookup-put sid id n w.server.streams, m, h)) in
              ground (arith, old)
        ];
        undisturbed = λ id b c h. elim (Bool-cases (bytes_eq sid id)) [
          | inl e ↦
              let at : n ≡ b = ground (arith, lookup-put sid id n w.server.streams, e, h) in
              ground (arith, at, new_stream-parts sid w.server.cfg)
          | inr m ↦
              let found : lookup id w.server.streams ≡ some b =
                ground (arith, lookup-put sid id n w.server.streams, m, h) in
              ground (arith, sound.placed id b found, sound.undisturbed id b c found)
        ];
      }

  torn-IsKept :
      (a : ℕ)
      → IsKept
          (w.holding true a)
          (w.holding false a)
          (w.leaving true a)
          (w.leaving false a)
          (w.fired a)
          (tear_down (w.server.heap a)).1
  torn-IsKept a =
      tear_down-IsKept (w.holding true a) (w.holding false a) (w.leaving true a) (w.leaving false a)
        (w.fired a) (w.server.heap a) (sound.kept a)

  -- No other key leads to a stream whose key is deleted.
  still_there :
      (sid : Bytes) (a : ℕ) (id : Bytes)
      → lookup sid w.server.streams ≡ some a
      → lookup id (delete sid w.server.streams) ≢ some a
  still_there sid a id l h = elim (Bool-cases (bytes_eq sid id)) [
    | inl e ↦ ground (arith, lookup-delete sid id w.server.streams, e, h)
    | inr n ↦
        let found : lookup id w.server.streams ≡ some a =
          ground (arith, lookup-delete sid id w.server.streams, n, h) in
        let same : sid ≡ id = sym (sound.placed sid a l).1 ∙ (sound.placed id a found).1 in
        ground (arith, n, bytes_eq_iff sid id, same)
  ]

  delete_torn-IsSound :
      (sid : Bytes) (a : ℕ) (p : Result (Unit {0}) × Stream)
      → lookup sid w.server.streams ≡ some a
      → p ≡ tear_down (w.server.heap a)
      → IsSound (record w { server = (delete_torn sid a p w.server).1 })
  delete_torn-IsSound sid a (err e, t) l q =
      let parts = tear_down-parts (w.server.heap a) in
      set_stream-IsSound w sound a t w.holding w.leaving w.pending w.fired
        (ground (arith, torn-IsKept a, q)) (λ b n. (refl, refl, refl, refl, refl))
        (used-or_free w sound a) (ground (arith, parts, q)) (ground (arith, parts, q))
  delete_torn-IsSound sid a (ok u, t) l q =
      let parts = tear_down-parts (w.server.heap a) in
      change-IsSound w sound a t (delete sid w.server.streams) w.holding w.leaving w.pending w.fired
        (ground (arith, torn-IsKept a, q)) (λ b n. (refl, refl, refl, refl, refl))
        (used-or_free w sound a) (ground (arith, parts, q))
        (λ id b h. ground (arith, lookup-delete sid id w.server.streams, h))
        (λ id n h. absurd (still_there sid a id l h))

  tear_down_at-IsSound :
      (sid : Bytes) (o : Option ℕ)
      → lookup sid w.server.streams ≡ o
      → IsSound (record w { server = (tear_down_at sid o w.server).1 })
  unfolding tear_down_at
  tear_down_at-IsSound sid none l = sound
  tear_down_at-IsSound sid (some a) l =
      delete_torn-IsSound sid a (tear_down (w.server.heap a)) l refl

  pub stale-IsSound :
      (sid : Bytes) → IsSound (record w { server = (tear_down_stale_stream sid w.server).1 })
  unfolding tear_down_stale_stream
  stale-IsSound sid = tear_down_at-IsSound sid (lookup sid w.server.streams) refl

  tear_down_stream-IsSound :
      (id : Bytes) (auth : CipherBoxAuth)
      → IsSound (record w { server = (tear_down_stream id auth w.server).1 })
  unfolding tear_down_stream validate_stream_auth
  tear_down_stream-IsSound id auth =
      tear_down_at-IsSound (new_stream_id id) (lookup (new_stream_id id) w.server.streams) refl

  init_stream-IsSound : (id : Bytes) → IsSound (record w { server = (init_stream id w.server).1 })
  unfolding init_stream
  init_stream-IsSound id = elim (Option-cases (lookup (new_stream_id id) w.server.streams)) [
    | inl n ↦ rw (n, init_stream) (put_stream-IsSound (new_stream_id id) n)
    | inr (a, e) ↦ rw (e, init_stream) sound
  ]

  pub new_cipher_box-IsSound :
      (init : CipherBoxAuth) → IsSound (record w { server = (new_cipher_box init w.server).1 })
  unfolding new_cipher_box validate_stream_auth
  new_cipher_box-IsSound init = elim (Result-cases (validate_auth_req init)) [
    | is_err e k ↦ rw (k, new_cipher_box) sound
    | is_ok id k ↦ rw (k, new_cipher_box) (init_stream-IsSound id)
  ]

  pub del_cipher_box-IsSound :
      (auth : CipherBoxAuth) → IsSound (record w { server = (del_cipher_box auth w.server).1 })
  unfolding del_cipher_box
  del_cipher_box-IsSound auth = elim (Result-cases (validate_auth_req auth)) [
    | is_err e k ↦ rw (k, del_cipher_box) sound
    | is_ok id k ↦ rw (k, del_cipher_box) (tear_down_stream-IsSound id auth)
  ]

-- Once the server is stopped, nothing is asked of the streams that the map leads to.
pub stopped-IsSound : (w : World) → IsSound w → IsSound (record w { stopped = true })
stopped-IsSound w sound = record {
  kept = sound.kept;
  fresh = sound.fresh;
  placed = sound.placed;
  undisturbed = λ id a h. absurd (cc h);
}

tear_down_all-IsSound :
    (l : List (Bytes × ℕ)) (w : World)
    → w.stopped ≡ true
    → IsSound w
    → IsSound (record w { server = record w.server { heap = (tear_down_all l w.server.heap).1 } })
unfolding tear_down_all
tear_down_all-IsSound [] w h sound = sound
tear_down_all-IsSound ((id, a) ∷ rest) w h sound =
    let t : Stream = (tear_down (w.server.heap a)).1 in
    let first : IsSound (record w { server = set_stream a t w.server }) =
      change-IsSound w sound a t w.server.streams w.holding w.leaving w.pending w.fired
        (ground (arith, torn-IsKept w sound a)) (λ b n. (refl, refl, refl, refl, refl))
        (used-or_free w sound a) (tear_down-parts (w.server.heap a)).0 (λ id b e. e)
        (λ id n e. absurd (cc (h, n))) in
    elim (Bool-cases (is_panic (tear_down (w.server.heap a)).0)) [
      | inl y ↦ rw (y, tear_down_all) first
      | inr n ↦
          rw (n, tear_down_all)
            (tear_down_all-IsSound rest (record w { server = set_stream a t w.server }) h first)
    ]

pub stop_server-IsSound :
    (w : World)
    → IsSound w
    → IsSound (record w { server = (stop_server w.server).1; stopped = true })
unfolding stop_server
stop_server-IsSound w sound =
    tear_down_all-IsSound w.server.streams (record w { stopped = true }) refl
      (stopped-IsSound w sound)
