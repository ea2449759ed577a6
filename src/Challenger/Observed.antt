-- ===== src/Challenger/Observed.antt =====
-- The states that challenger/lnd.go keeps: at the start, and after any messages of the stream.
use aperture.Prelude.{
  List-cases, zero, suc, >>=-eq-ok, subst, ◌≡◌, ◌≢◌, refl, List, [], ◌∷◌, Bytes, Option, none, some,
  Result, ok, err, arith, Bool-cases, inl, inr, Option-cases, Result-cases, is_ok, is_err,
}
use aperture.Go.Time.{Time}
use aperture.Go.Maps.{
  delete-IsMap, put, delete, lookup, lookup-put, lookup-delete, IsMap, put-IsMap,
}
use aperture.L402.Lntypes.{Lntypes}
use aperture.Challenger.{
  ℕ, false, Invoice, InvoiceClient, InvoiceState, InvoiceStates, invoice_canceled,
  invoice_irrelevant,
}
use aperture.Challenger.Updates.{
  quit_closed, recv_eof, recv_canceled, recv_failed, StreamEvent, received, turn, receive,
  update_hash, update_state, read_stream, Reader, reading, stopped, states_after, reader_after,
}
use aperture.Challenger.Startup.{
  Found, see_invoice, keep_state, see_indices, see_invoices, paginate, subscribe, start,
  found_nothing,
}

-- Each hash has one state, and no state is CANCELED.
pub record IsTracked (m : InvoiceStates) : Type 0 where
  pub distinct : IsMap m
  pub active : (hash : Bytes) → lookup hash m ≢ some invoice_canceled

IsTracked-none : IsTracked []
unfolding lookup
IsTracked-none = record { distinct = tt; active = λ hash h. cc }

-- An invoice that is relevant is not canceled.
relevant-active :
    (now : Time) (invoice : Invoice)
    → invoice_irrelevant now (some invoice) ≡ false
    → invoice.state ≢ invoice_canceled
unfolding invoice_irrelevant
relevant-active now invoice h k = ground arith

put-IsTracked :
    (hash : Bytes) (s : InvoiceState) (m : InvoiceStates)
    → s ≢ invoice_canceled
    → IsTracked m
    → IsTracked (put hash s m)
put-IsTracked hash s m h t = record {
  distinct = put-IsMap hash s m t.distinct;
  active = λ other e. ground (arith, lookup-put hash other s m, t.active other, e, h);
}

delete-IsTracked : (hash : Bytes) (m : InvoiceStates) → IsTracked m → IsTracked (delete hash m)
delete-IsTracked hash m t = record {
  distinct = delete-IsMap hash m t.distinct;
  active = λ other e. ground (arith, lookup-delete hash other m, t.active other, e);
}

module _ (ln : Lntypes) where
  update_hash-IsTracked :
      (now : Time) (invoice : Invoice) (made : Result Bytes) (m : InvoiceStates)
      → IsTracked m
      → IsTracked (states_after (update_hash now invoice made m) m)
  unfolding update_hash update_state
  update_hash-IsTracked now invoice (err e) m t = t
  update_hash-IsTracked now invoice (ok hash) m t =
      elim (Bool-cases (invoice_irrelevant now (some invoice))) [
        | inl y ↦ rw y (delete-IsTracked hash m t)
        | inr n ↦ rw n (put-IsTracked hash invoice.state m (relevant-active now invoice n) t)
      ]

  receive-IsTracked :
      (now : Time) (invoice : Invoice) (r_hash : Option Bytes) (m : InvoiceStates)
      → IsTracked m
      → IsTracked (states_after (receive ln now invoice r_hash m) m)
  unfolding receive
  receive-IsTracked now invoice none m t = t
  receive-IsTracked now invoice (some r) m t =
      update_hash-IsTracked now invoice (ln.make_hash r) m t

  turn-IsTracked :
      (e : StreamEvent) (m : InvoiceStates) → IsTracked m → IsTracked (states_after (turn ln e m) m)
  unfolding turn
  turn-IsTracked (received now invoice) m t = receive-IsTracked now invoice invoice.r_hash m t
  turn-IsTracked quit_closed m t = t
  turn-IsTracked recv_eof m t = t
  turn-IsTracked recv_canceled m t = t
  turn-IsTracked (recv_failed e) m t = t

  -- Whatever the stream brings, each hash keeps one state at most, and never CANCELED.
  pub read_stream-IsTracked :
      (es : List StreamEvent) (reader : Reader) (m : InvoiceStates)
      → IsTracked m
      → IsTracked (read_stream ln es reader m).1
  unfolding read_stream
  read_stream-IsTracked [] reader m t = t
  read_stream-IsTracked (e ∷ es) (stopped reported) m t = t
  read_stream-IsTracked (e ∷ es) reading m t =
      read_stream-IsTracked es (reader_after (turn ln e m)) (states_after (turn ln e m) m)
        (turn-IsTracked e m t)

  keep_state-IsTracked :
      (now : Time) (invoice : Invoice) (f g : Found) (made : Result Bytes)
      → IsTracked f.states
      → keep_state now invoice f made ≡ ok g
      → IsTracked g.states
  unfolding keep_state
  keep_state-IsTracked now invoice f g (err e) t h = absurd (cc h)
  keep_state-IsTracked now invoice f g (ok hash) t h =
      elim (Bool-cases (invoice_irrelevant now (some invoice))) [
        | inl y ↦ let same : f.states ≡ g.states = ground (arith, y, h) in subst IsTracked same t
        | inr n ↦
            let same : put hash invoice.state f.states ≡ g.states = ground (arith, n, h) in
            subst IsTracked same
              (put-IsTracked hash invoice.state f.states (relevant-active now invoice n) t)
      ]

  see_invoice-IsTracked :
      (now : Time) (invoice : Invoice) (r_hash : Option Bytes) (f g : Found)
      → IsTracked f.states
      → see_invoice ln now invoice r_hash f ≡ ok g
      → IsTracked g.states
  unfolding see_invoice
  see_invoice-IsTracked now invoice none f g t h =
      let same : f.states ≡ g.states = ground (arith, h) in subst IsTracked same t
  see_invoice-IsTracked now invoice (some r) f g t h =
      keep_state-IsTracked now invoice (see_indices invoice f) g (ln.make_hash r) t h

  see_invoices-IsTracked :
      (now : Time) (is : List Invoice) (f g : Found)
      → IsTracked f.states
      → see_invoices ln now is f ≡ ok g
      → IsTracked g.states
  unfolding see_invoices
  see_invoices-IsTracked now [] f g t h =
      let same : f.states ≡ g.states = ground (arith, h) in subst IsTracked same t
  see_invoices-IsTracked now (i ∷ is) f g t h =
      let (mid, k, l) = >>=-eq-ok (see_invoice ln now i i.r_hash f) (see_invoices ln now is) h in
      see_invoices-IsTracked now is mid g (see_invoice-IsTracked now i i.r_hash f mid t k) l

  module _ {Stream : Type 0} (client : InvoiceClient Stream) where
    paginate-IsTracked :
        (fuel batch_size : ℕ) (now : Time) (offset : ℕ) (f g : Found)
        → IsTracked f.states
        → paginate ln client fuel batch_size now offset f ≡ some (ok g)
        → IsTracked g.states
    unfolding paginate
    paginate-IsTracked zero batch_size now offset f g t h = absurd (cc h)
    paginate-IsTracked (suc fuel) batch_size now offset f g t h =
        elim (Result-cases (client.list_invoices offset batch_size)) [
          | is_err e k ↦ absurd (ground (arith, k, h))
          | is_ok resp k ↦ elim (List-cases resp.invoices) [
            | inl n ↦
                let same : f.states ≡ g.states = ground (arith, k, n, h) in subst IsTracked same t
            | inr (i, is, c) ↦ elim (Result-cases (see_invoices ln now (i ∷ is) f)) [
              | is_err e q ↦ absurd (ground (arith, k, c, q, h))
              | is_ok mid q ↦
                  paginate-IsTracked fuel batch_size now resp.last_index_offset mid g
                    (see_invoices-IsTracked now (i ∷ is) f mid t q) (ground (arith, k, c, q, h))
            ]
          ]
        ]

    subscribe-ok :
        (found : Result Found) (states : InvoiceStates) (updates : Stream)
        → subscribe ln client found ≡ ok (states, updates)
        → (f : Found) × (found ≡ ok f) × (f.states ≡ states)
    unfolding subscribe
    subscribe-ok (err e) states updates h = absurd (cc h)
    subscribe-ok (ok f) states updates h =
        elim (Result-cases (client.subscribe_invoices f.add_index f.settle_index)) [
          | is_err e k ↦ absurd (ground (arith, k, h))
          | is_ok u k ↦ (f, refl, ground (arith, k, h))
        ]

    -- Once Start has succeeded, whatever lnd lists and whatever the stream brings after it, each
    -- hash has one state at most, and never CANCELED.
    pub start-IsTracked :
        (fuel batch_size : ℕ) (now : Time) (states : InvoiceStates) (updates : Stream)
        (es : List StreamEvent)
        → start ln client fuel batch_size now ≡ some (ok (states, updates))
        → IsTracked (read_stream ln es reading states).1
    unfolding start subscribe
    start-IsTracked fuel batch_size now states updates es h =
        elim (Option-cases (paginate ln client fuel batch_size now 0 found_nothing)) [
          | inl n ↦ absurd (ground (arith, n, h))
          | inr (found, k) ↦
              let (f, q, same) = subscribe-ok found states updates (ground (arith, k, h)) in
              let tracked : IsTracked f.states =
                paginate-IsTracked fuel batch_size now 0 found_nothing f IsTracked-none
                  (ground (arith, k, q)) in
              read_stream-IsTracked es reading states (subst IsTracked same tracked)
        ]
