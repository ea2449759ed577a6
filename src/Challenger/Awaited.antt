-- ===== src/Challenger/Awaited.antt =====
-- What a call of VerifyInvoiceStatus of challenger/lnd.go answers, in any order of the goroutines.
use aperture.Prelude.{
  ◌∙◌, bytes_eq_iff, ap, bytes_eq, err, bytes_eq_refl, All, ◌≡◌, ◌≢◌, refl, ◌⊎◌, inl, inr, true,
  false, List, [], ◌∷◌, ◌++◌, Bytes, Option, none, some, Result, ok, arith, Option-cases,
  Bool-cases,
}
use aperture.Go.Time.{Time}
use aperture.Go.Maps.{lookup-delete, lookup, lookup-put}
use aperture.L402.Lntypes.{Lntypes}
use aperture.Challenger.{Invoice, InvoiceState, state_eq, InvoiceStates, invoice_irrelevant}
use aperture.Challenger.Updates.{
  quit_closed, recv_eof, recv_canceled, recv_failed, StreamEvent, received, turn, receive,
  update_hash, update_state, Reader, reading, states_after,
}
use aperture.Challenger.Wait.{
  WaitEvent, stream, alarm, look, Waiting, call_of, step, stream_step, look_step, run, verdict,
  verdict_of, verify_invoice_status, is_none,
}

state_eq-≡ : (s t : InvoiceState) → state_eq s t ≡ true → s ≡ t
state_eq-≡ s t h = ground arith

state_eq_refl : (s : InvoiceState) → state_eq s s ≡ true
state_eq_refl s = ground arith

module _ (ln : Lntypes) (hash : Bytes) (wanted : InvoiceState) where
  run-append :
      (xs ys : List WaitEvent) (w : Waiting)
      → run ln hash wanted (xs ++ ys) w ≡ run ln hash wanted ys (run ln hash wanted xs w)
  unfolding run
  run-append [] ys w = refl
  run-append (x ∷ xs) ys w = run-append xs ys (step ln hash wanted x w)

  -- The states that the challenger holds after some part of the schedule.
  pub record IsSeen (es : List WaitEvent) (w : Waiting) : Type 0 where
    pub past : List WaitEvent
    pub rest : List WaitEvent
    pub split : es ≡ past ++ rest
    pub held : lookup hash (run ln hash wanted past w).states ≡ some wanted

  -- A call that is over stays so.
  step-outcome :
      (e : WaitEvent) (w : Waiting) (seen : Option InvoiceState)
      → w.outcome ≡ some seen
      → (step ln hash wanted e w).outcome ≡ some seen
  unfolding step stream_step
  step-outcome e w seen h = ground arith

  run-outcome :
      (es : List WaitEvent) (w : Waiting) (seen : Option InvoiceState)
      → w.outcome ≡ some seen
      → (run ln hash wanted es w).outcome ≡ some seen
  unfolding run
  run-outcome [] w seen h = h
  run-outcome (e ∷ es) w seen h =
      run-outcome es (step ln hash wanted e w) seen (step-outcome e w seen h)

  -- A look that ends the call has seen what the states hold.
  step-ends :
      (e : WaitEvent) (w : Waiting) (seen : Option InvoiceState)
      → w.outcome ≡ none
      → (step ln hash wanted e w).outcome ≡ some seen
      → lookup hash w.states ≡ seen
  unfolding step stream_step look_step
  step-ends e w seen h k = ground arith

  verdict-ok : (seen : Option InvoiceState) → verdict wanted seen ≡ ok tt → seen ≡ some wanted
  unfolding verdict
  verdict-ok none h = absurd (cc h)
  verdict-ok (some s) h = ground (arith, state_eq-≡ s wanted)

  run-IsSeen :
      (es : List WaitEvent) (w : Waiting)
      → w.outcome ≡ none
      → (run ln hash wanted es w).outcome ≡ some (some wanted)
      → IsSeen es w
  unfolding run
  run-IsSeen [] w h k = absurd (ground arith)
  run-IsSeen (e ∷ es) w h k = elim (Option-cases (step ln hash wanted e w).outcome) [
    | inl n ↦
        let later = run-IsSeen es (step ln hash wanted e w) n k in
        record {
          past = e ∷ later.past;
          rest = later.rest;
          split = cc (later.split);
          held = later.held;
        }
    | inr (seen, q) ↦
        let same : seen ≡ some wanted =
          ground (arith, run-outcome es (step ln hash wanted e w) seen q) in
        record {
          past = [];
          rest = e ∷ es;
          split = refl;
          held = ground (arith, step-ends e w seen h q);
        }
  ]

  -- A call succeeds only if, when it looked, the challenger held the wanted state for the hash.
  pub verify_invoice_status-IsSeen :
      (es : List WaitEvent) (states : InvoiceStates) (reader : Reader)
      → verify_invoice_status ln hash wanted es (call_of states reader) ≡ some (ok tt)
      → IsSeen es (call_of states reader)
  unfolding verify_invoice_status verdict_of
  verify_invoice_status-IsSeen es states reader h =
      elim (Option-cases (run ln hash wanted es (call_of states reader)).outcome) [
        | inl n ↦ absurd (ground (arith, n, h))
        | inr (seen, q) ↦
            run-IsSeen es (call_of states reader) refl (ground (arith, q, h, verdict-ok seen))
      ]

  -- The call is over, or the alarm has woken it up for the last time.
  abbrev IsAlarmed : Waiting → Type 0
  IsAlarmed w = (is_none w.outcome ≡ false) ⊎ ((w.timeout_reached ≡ true) × (w.woken ≡ true))

  step-IsAlarmed : (e : WaitEvent) (w : Waiting) → IsAlarmed w → IsAlarmed (step ln hash wanted e w)
  unfolding step stream_step look_step
  step-IsAlarmed e w h = ground arith

  run-IsAlarmed :
      (es : List WaitEvent) (w : Waiting) → IsAlarmed w → IsAlarmed (run ln hash wanted es w)
  unfolding run
  run-IsAlarmed [] w h = h
  run-IsAlarmed (e ∷ es) w h = run-IsAlarmed es (step ln hash wanted e w) (step-IsAlarmed e w h)

  look-ends :
      (w : Waiting)
      → IsAlarmed w
      → (seen : Option InvoiceState) × ((step ln hash wanted look w).outcome ≡ some seen)
  unfolding step look_step
  look-ends w h = elim (Option-cases w.outcome) [
    | inl n ↦ (lookup hash w.states, ground (arith, h, n))
    | inr (seen, q) ↦ (seen, ground (arith, q))
  ]

  -- A call is over once the alarm has gone off and the waiting goroutine has had the lock after
  -- it, whatever happens before, between and after the two: it never blocks forever.
  pub verify_invoice_status-alarm :
      (xs ys zs : List WaitEvent) (w : Waiting)
      → (r : Result (Unit {0})) × (verify_invoice_status ln hash wanted
            (xs ++ (alarm ∷ (ys ++ (look ∷ zs))))
            w
          ≡ some r)
  unfolding verify_invoice_status verdict_of run
  verify_invoice_status-alarm xs ys zs w =
      let rung : Waiting = step ln hash wanted alarm (run ln hash wanted xs w) in
      let before : Waiting = run ln hash wanted ys rung in
      let woken : IsAlarmed before = run-IsAlarmed ys rung (inr (unfold step in (refl, refl))) in
      let (seen, e) = look-ends before woken in
      let kept = run-outcome zs (step ln hash wanted look before) seen e in
      (
        verdict wanted seen,
        ground (
          arith,
          kept,
          run-append xs (alarm ∷ (ys ++ (look ∷ zs))) w,
          run-append ys (look ∷ zs) rung,
        ),
      )

  -- An event that brings nothing about the hash.
  abbrev pub IsOther : WaitEvent → Type 0
  IsOther (stream (received now invoice)) =
      (r : Bytes) → invoice.r_hash ≡ some r → ln.make_hash r ≢ ok hash
  IsOther _ = Unit

  -- The wanted state is held, and the call is over with it or is about to look.
  abbrev IsNotified : Waiting → Type 0
  IsNotified w =
      (w.outcome ≡ some (some wanted))
      ⊎ ((w.outcome ≡ none) × (w.woken ≡ true) × (lookup hash w.states ≡ some wanted))

  -- A turn of the reader about other invoices leaves the hash alone.
  update_hash-other :
      (now : Time) (invoice : Invoice) (made : Result Bytes) (m : InvoiceStates)
      → made ≢ ok hash
      → lookup hash (states_after (update_hash now invoice made m) m) ≡ lookup hash m
  unfolding update_hash update_state
  update_hash-other now invoice (err e) m h = refl
  update_hash-other now invoice (ok k) m h =
      let apart : bytes_eq k hash ≢ true = λ q. h (ap ok ((bytes_eq_iff k hash).0 q)) in
      elim (Bool-cases (invoice_irrelevant now (some invoice))) [
        | inl y ↦ ground (arith, y, apart, lookup-delete k hash m)
        | inr n ↦ ground (arith, n, apart, lookup-put k hash invoice.state m)
      ]

  turn-other :
      (e : StreamEvent) (m : InvoiceStates)
      → IsOther (stream e)
      → lookup hash (states_after (turn ln e m) m) ≡ lookup hash m
  unfolding turn receive
  turn-other (received now invoice) m h = elim (Option-cases invoice.r_hash) [
    | inl n ↦ ground (arith, n)
    | inr (r, k) ↦ ground (arith, k, update_hash-other now invoice (ln.make_hash r) m (h r k))
  ]
  turn-other quit_closed m h = refl
  turn-other recv_eof m h = refl
  turn-other recv_canceled m h = refl
  turn-other (recv_failed e) m h = refl

  step-IsNotified :
      (e : WaitEvent) (w : Waiting)
      → IsOther e
      → IsNotified w
      → IsNotified (step ln hash wanted e w)
  unfolding step stream_step look_step
  step-IsNotified (stream e) w h k = ground (arith, turn-other e w.states h)
  step-IsNotified alarm w h k = ground arith
  step-IsNotified look w h k = ground (arith, state_eq_refl wanted)

  run-IsNotified :
      (es : List WaitEvent) (w : Waiting)
      → All IsOther es
      → IsNotified w
      → IsNotified (run ln hash wanted es w)
  unfolding run
  run-IsNotified [] w h k = k
  run-IsNotified (e ∷ es) w h k =
      run-IsNotified es (step ln hash wanted e w) h.1 (step-IsNotified e w h.0 k)

  -- An invoice of the hash in the wanted state wakes the call up.
  receive-IsNotified :
      (now : Time) (invoice : Invoice) (r : Bytes) (w : Waiting)
      → invoice.r_hash ≡ some r
      → ln.make_hash r ≡ ok hash
      → invoice.state ≡ wanted
      → invoice_irrelevant now (some invoice) ≡ false
      → w.reader ≡ reading
      → w.outcome ≡ none
      → IsNotified (step ln hash wanted (stream (received now invoice)) w)
  unfolding step stream_step turn receive update_hash update_state
  receive-IsNotified now invoice r w named made same relevant running waits = ground (
    arith,
    named,
    made,
    same,
    relevant,
    running,
    waits,
    lookup-put hash hash invoice.state w.states,
    bytes_eq_refl hash,
  )

  look-IsNotified :
      (w : Waiting) → IsNotified w → (step ln hash wanted look w).outcome ≡ some (some wanted)
  unfolding step look_step
  look-IsNotified w h = ground (arith, state_eq_refl wanted)

  -- A call that waits learns of the update it waits for: when the reader receives the invoice of
  -- the hash in the wanted state, neither canceled nor expired, and no other update of this
  -- invoice comes before the waiting goroutine has the lock, the call succeeds, even when the
  -- timeout is reached in between.
  pub verify_invoice_status-update :
      (now : Time) (invoice : Invoice) (r : Bytes) (es zs : List WaitEvent) (w : Waiting)
      → invoice.r_hash ≡ some r
      → ln.make_hash r ≡ ok hash
      → invoice.state ≡ wanted
      → invoice_irrelevant now (some invoice) ≡ false
      → w.reader ≡ reading
      → w.outcome ≡ none
      → All IsOther es
      → verify_invoice_status ln hash wanted (stream (received now invoice) ∷ (es ++ (look ∷ zs))) w
        ≡ some (ok tt)
  unfolding verify_invoice_status verdict_of verdict run
  verify_invoice_status-update now invoice r es zs w named made same relevant running waits others =
      let got : Waiting = step ln hash wanted (stream (received now invoice)) w in
      let before : Waiting = run ln hash wanted es got in
      let told : IsNotified before =
        run-IsNotified es got others
          (receive-IsNotified now invoice r w named made same relevant running waits) in
      let kept =
        run-outcome zs (step ln hash wanted look before) (some wanted)
          (look-IsNotified before told) in
      ground (arith, kept, run-append es (look ∷ zs) got, state_eq_refl wanted)

  -- The same for a call that has gone on for some time: it may have looked and be blocked.
  pub verify_invoice_status-later :
      (now : Time) (invoice : Invoice) (r : Bytes) (xs es zs : List WaitEvent) (w : Waiting)
      → invoice.r_hash ≡ some r
      → ln.make_hash r ≡ ok hash
      → invoice.state ≡ wanted
      → invoice_irrelevant now (some invoice) ≡ false
      → (run ln hash wanted xs w).reader ≡ reading
      → (run ln hash wanted xs w).outcome ≡ none
      → All IsOther es
      → verify_invoice_status ln hash wanted
          (xs ++ stream (received now invoice) ∷ (es ++ (look ∷ zs)))
          w
        ≡ some (ok tt)
  unfolding verify_invoice_status
  verify_invoice_status-later now invoice r xs es zs w named made same relevant running waits
        others =
      ap (λ v. verdict_of wanted v.outcome)
        (run-append xs (stream (received now invoice) ∷ (es ++ (look ∷ zs))) w)
      ∙ verify_invoice_status-update now invoice r es zs (run ln hash wanted xs w) named made same
          relevant running waits others
