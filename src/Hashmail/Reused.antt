-- ===== src/Hashmail/Reused.antt =====
-- Where the timers of hashmail_server.go tear down a mailbox that is in use.
use aperture.Prelude.{
  ℕ, ◌≡◌, ◌≢◌, ◌∙◌, sym, ap, none, Bytes, bytes_eq_refl, true, false, some, arith,
}
use aperture.Go.Maps.{lookup, lookup-delete}
use aperture.Hashmail.Stream.{Stream, tear_down}
use aperture.Hashmail.Server.{tear_down_stale_stream, tear_down_at}
use aperture.Hashmail.World.{World, Reach, stepped, timer_fired, callback_run, fire, run_callback}
use aperture.Hashmail.{HashMailServerConfig}
use aperture.Hashmail.Exclusive.Sound.{Reach-IsSound}

-- The callback of a timer tears down the stream that the map has for the id.
stale_torn :
    (w : World) (a b : ℕ)
    → lookup (w.server.heap a).id w.server.streams ≡ some b
    → (w.server.heap b).quit_closed ≡ false
    → (((run_callback a w).server.heap b).quit_closed ≡ true)
      × (lookup (w.server.heap a).id (run_callback a w).server.streams ≡ none)
unfolding tear_down_stale_stream tear_down_at tear_down
stale_torn w a b l q =
    let id : Bytes = (w.server.heap a).id in
    ground (arith, l, q, lookup-delete id id w.server.streams, bytes_eq_refl id)

fire-id : (a : ℕ) (w : World) → ((fire a w).server.heap a).id ≡ (w.server.heap a).id
fire-id a w = ground arith

fire-quit :
    (a b : ℕ) (w : World) → ((fire a w).server.heap b).quit_closed ≡ (w.server.heap b).quit_closed
fire-quit a b w = ground arith

-- A timer outlives its stream and hits another one: when, in a state that is reached before Stop,
-- the timer of a stream that has been torn down is armed, and its id is in the map again, then the
-- stream in the map is another one and is not torn down; when the timer fires and its callback runs,
-- which are steps that are possible, this other stream is torn down and its id is not in the map any
-- more, whoever holds its ends.
pub armed-other :
    (cfg : HashMailServerConfig) (w : World) (a b : ℕ)
    → Reach cfg w
    → w.stopped ≡ false
    → (w.server.heap a).quit_closed ≡ true
    → (w.server.heap a).status.armed ≡ true
    → lookup (w.server.heap a).id w.server.streams ≡ some b
    → (b ≢ a)
      × ((w.server.heap b).quit_closed ≡ false)
      × Reach cfg (run_callback a (fire a w))
      × (((run_callback a (fire a w)).server.heap b).quit_closed ≡ true)
      × (lookup (w.server.heap a).id (run_callback a (fire a w)).server.streams ≡ none)
armed-other cfg w a b r c q armed l =
    let whole = Reach-IsSound cfg w r in
    let open_b : (w.server.heap b).quit_closed ≡ false =
      whole.undisturbed (w.server.heap a).id b c l in
    let (torn, gone) =
      stale_torn (fire a w) a b (ap (λ i. lookup i w.server.streams) (fire-id a w) ∙ l)
        (fire-quit a b w ∙ open_b) in
    (
      λ e. absurd (ground (arith, e, q, open_b)),
      open_b,
      stepped (fire a w) (run_callback a (fire a w)) (stepped w (fire a w) r (timer_fired a armed))
          (callback_run a (ground arith)),
      torn,
      ap (λ i. lookup i (run_callback a (fire a w)).server.streams) (sym (fire-id a w)) ∙ gone,
    )
