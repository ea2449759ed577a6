-- ===== src/Hashmail/Exclusive/Changed.antt =====
-- When a change of one stream of hashmail_server.go keeps the server sound.
use aperture.Prelude.{
  ◌∙◌, ℕ, ◌≤◌, ◌<◌, ◌≡◌, ◌⊎◌, inl, inr, refl, Bool, true, false, ◌==◌, Bytes, List, some,
  Bool-cases, arith,
}
use aperture.Go.Maps.{lookup}
use aperture.Hashmail.{HashMailServerConfig}
use aperture.Hashmail.Stream.{Stream}
use aperture.Hashmail.Server.{new_hash_mail_server, set_stream}
use aperture.Hashmail.World.{World, Counts, start_world}
use aperture.Hashmail.Exclusive.Kept.{IsKept}

-- What is kept at an address.
abbrev pub IsKeptAt : World → ℕ → Type 0
IsKeptAt w a =
    IsKept (w.holding true a) (w.holding false a) (w.leaving true a) (w.leaving false a) (w.fired a)
      (w.server.heap a)

-- The map leads to streams in use with the id of their key, and, before Stop, none that is torn
-- down; calls hold addresses in use only.
pub record IsSound (w : World) : Type 0 where
  pub kept : (a : ℕ) → IsKeptAt w a
  pub fresh : (a : ℕ) → w.server.used ≤ a → (w.holding true a ≡ 0) × (w.holding false a ≡ 0)
  pub placed :
      (id : Bytes) (a : ℕ)
      → lookup id w.server.streams ≡ some a
      → (a < w.server.used) × ((w.server.heap a).id ≡ id)
  pub undisturbed :
      (id : Bytes) (a : ℕ)
      → w.stopped ≡ false
      → lookup id w.server.streams ≡ some a
      → (w.server.heap a).quit_closed ≡ false

pub start_world-IsSound : (cfg : HashMailServerConfig) → IsSound (start_world cfg)
unfolding new_hash_mail_server lookup
start_world-IsSound cfg = record {
  kept = λ a. ground arith;
  fresh = λ a h. (refl, refl);
  placed = λ id a h. cc;
  undisturbed = λ id a n h. cc;
}

-- A step that changes one stream, which keeps its id, and the calls there, and may drop keys.
module _ (w : World) (sound : IsSound w) (a : ℕ) (s : Stream) (streams : List (Bytes × ℕ))
    (holding leaving : Counts) (pending : ℕ → ℕ) (fired : ℕ → Bool)
    (here : IsKept
      (holding true a)
      (holding false a)
      (leaving true a)
      (leaving false a)
      (fired a)
      s)
    (elsewhere : (b : ℕ)
      → (a == b) ≡ false
      → (holding true b ≡ w.holding true b)
        × (holding false b ≡ w.holding false b)
        × (leaving true b ≡ w.leaving true b)
        × (leaving false b ≡ w.leaving false b)
        × (fired b ≡ w.fired b))
    (used : (a < w.server.used) ⊎ ((holding true a ≡ 0) × (holding false a ≡ 0)))
    (same_id : s.id ≡ (w.server.heap a).id)
    (sub : (id : Bytes) (b : ℕ) → lookup id streams ≡ some b → lookup id w.server.streams ≡ some b)
    (intact : (id : Bytes)
      → w.stopped ≡ false
      → lookup id streams ≡ some a
      → s.quit_closed ≡ false) where
  pub change-IsSound : IsSound (record w {
    server = record (set_stream a s w.server) { streams = streams };
    holding = holding;
    leaving = leaving;
    pending = pending;
    fired = fired;
  })
  change-IsSound = record {
    kept = λ b. elim (Bool-cases (a == b)) [
      | inl e ↦ let same : a ≡ b = ground (arith, e) in ground (arith, e, same, here)
      | inr n ↦ ground (arith, n, elsewhere b n, sound.kept b)
    ];
    fresh = λ b h. elim (Bool-cases (a == b)) [
      | inl e ↦ let same : a ≡ b = ground (arith, e) in ground (arith, same, used, h)
      | inr n ↦ ground (arith, n, elsewhere b n, sound.fresh b h)
    ];
    placed = λ id b h. ground (arith, same_id, sound.placed id b (sub id b h));
    undisturbed = λ id b n h. elim (Bool-cases (a == b)) [
      | inl e ↦
          let same : a ≡ b = ground (arith, e) in
          ground (arith, e, intact id n (ground (arith, same, h)))
      | inr m ↦ ground (arith, m, sound.undisturbed id b n (sub id b h))
    ];
  }

-- The same, where the keys stay and the stream is not torn down.
module _ (w : World) (sound : IsSound w) (a : ℕ) (s : Stream) (holding leaving : Counts)
    (pending : ℕ → ℕ) (fired : ℕ → Bool)
    (here : IsKept
      (holding true a)
      (holding false a)
      (leaving true a)
      (leaving false a)
      (fired a)
      s)
    (elsewhere : (b : ℕ)
      → (a == b) ≡ false
      → (holding true b ≡ w.holding true b)
        × (holding false b ≡ w.holding false b)
        × (leaving true b ≡ w.leaving true b)
        × (leaving false b ≡ w.leaving false b)
        × (fired b ≡ w.fired b))
    (used : (a < w.server.used) ⊎ ((holding true a ≡ 0) × (holding false a ≡ 0)))
    (same_id : s.id ≡ (w.server.heap a).id)
    (same_quit : s.quit_closed ≡ (w.server.heap a).quit_closed) where
  pub set_stream-IsSound : IsSound (record w {
    server = set_stream a s w.server;
    holding = holding;
    leaving = leaving;
    pending = pending;
    fired = fired;
  })
  set_stream-IsSound =
      change-IsSound w sound a s w.server.streams holding leaving pending fired here elsewhere used
        same_id (λ id b h. h) (λ id n h. same_quit ∙ sound.undisturbed id a n h)
