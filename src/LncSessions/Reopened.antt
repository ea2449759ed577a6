-- ===== src/LncSessions/Reopened.antt =====
-- NewNodeConn of lnc/lnc.go opens the same session again.
use aperture.Prelude.{
  ◌≤◌, ◌≡◌, ◌≢◌, ◌∙◌, sym, ap, refl, ◌∷◌, Bytes, length, none, some, Error, Result, ok, err, arith,
  Bool, true, false, if◌then◌else◌,
}
use aperture.Go.Time.{Time}
use aperture.Database.{SqlCodes, BatchedQuerier, TxExecutorOptions, exec_tx}
use aperture.Database.Atomic.{IsReadable, IsTransactional, IsAtomic, exec_tx-IsAtomic}
use aperture.LncSessions.{
  Btcec, Mailbox, Session, LncSessionsDb, new_session, read_session, add_session, get_session,
  opened_with, add_new, is_session_not_found, truncate_micro, open_session,
}
use aperture.LncSessions.Found.{
  Sessions, IsLncSessionsDb, IsBtcec, found, get_session-found, add_with-IsAdded,
  get_session-add_session,
}

longer-ne : (s : Bytes) → 0 ∷ s ≢ s
longer-ne s h = omega (arith, ap length h)

without : {ec : Btcec} → Session ec → Session ec
without s = record s { remote_static_pub_key = none; expiry = none }

record IsPlainSession {ec : Btcec} (session : Session ec) : Type 0 where
  no_remote : session.remote_static_pub_key ≡ none
  no_expiry : session.expiry ≡ none

new_session-IsPlainSession :
    (ec : Btcec) (mailbox : Mailbox) (passphrase addr : Bytes) (dev : Bool) (session : Session ec)
    → new_session ec mailbox passphrase addr dev ≡ ok session
    → IsPlainSession session
unfolding new_session
new_session-IsPlainSession ec mailbox passphrase addr dev session h = record {
  no_remote = ground (arith, h);
  no_expiry = ground (arith, h);
}

module _ {S T : Type 0} (ec : Btcec) (codes : SqlCodes) (keys : IsBtcec ec codes)
    (db : BatchedQuerier S T) (view : S → Sessions) (tx_view : T → Sessions)
    (laws : IsTransactional db view tx_view) (readable : IsReadable db view tx_view)
    (table : LncSessionsDb T) (keeps : IsLncSessionsDb table tx_view) (opts : TxExecutorOptions)
    (some_try : 1 ≤ opts.num_retries) where
  -- A read leaves the table as it is.
  view-get_session :
      (st : S) (entropy : Bytes) → view (get_session ec codes db table opts entropy st).1 ≡ view st
  unfolding get_session
  view-get_session st entropy =
      kept (exec_tx codes db opts (λ t. (read_session ec (table.get_session t entropy), t)) st) (
        exec_tx-IsAtomic codes db view tx_view
          (λ t. (read_session ec (table.get_session t entropy), t)) laws opts st)
    where
      kept :
          (p : Result (Session ec) × S)
          → IsAtomic codes db view tx_view
              (λ t. (read_session ec (table.get_session t entropy), t))
              (view st)
              p
          → view p.1 ≡ view st
      kept (ok s, st') c = c.written ∙ (ap (λ p. tx_view p.1) (sym c.ran) ∙ c.read)
      kept (err e, st') c = c

  get_session-again :
      (st : S) (entropy : Bytes)
      → (get_session ec codes db table opts entropy
          (get_session ec codes db table opts entropy st).1).0
        ≡ (get_session ec codes db table opts entropy st).0
  get_session-again st entropy =
      get_session-found ec codes keys db view tx_view laws readable table keeps opts some_try _
        entropy
      ∙ (ap (λ v. found ec codes keys (v entropy)) (view-get_session st entropy)
          ∙ sym (
              get_session-found ec codes keys db view tx_view laws readable table keeps opts
                some_try st entropy))

  opened-ok :
      (session s : Session ec) (random : Result ec.PrivateKey) (now : Time)
      (p : Result (Session ec) × S)
      → p.0 ≡ ok s
      → (opened_with ec codes db table opts session random now p).0 ≡ ok s
  opened-ok session s random now (ok f, st) h = h
  opened-ok session s random now (err e, st) h = absurd (cc h)

  module _ (session s : Session ec) (plain : IsPlainSession session)
      (random random' : Result ec.PrivateKey) (now now' : Time) where
    added-again :
        (key : ec.PrivateKey) (st : S)
        → (add_new ec codes db table opts session (ok key) now st).0 ≡ ok s
        → (open_session ec codes db table opts session random' now'
            (add_new ec codes db table opts session (ok key) now st).1).0
          ≡ ok s
    unfolding open_session add_session without
    added-again key st h =
        let keyed : Session ec = record session { local_static_priv_key = some key } in
        let c =
          add_with-IsAdded ec codes keys db view tx_view laws readable table keeps opts some_try
            keyed s now (some key) st h in
        let (again, others) =
          get_session-add_session ec codes keys db view tx_view laws readable table keeps opts
            some_try keyed s now st (0 ∷ session.passphrase_entropy) h
            (longer-ne session.passphrase_entropy) in
        let fixed : without (record keyed { created_at = some (truncate_micro now) })
            ≡ record keyed { created_at = some (truncate_micro now) } =
          rw (plain.no_remote, plain.no_expiry) refl in
        opened-ok session s random' now' _
          (again ∙ ap ok (ap without c.same ∙ (fixed ∙ sym c.same)))

    new-again :
        (random₁ : Result ec.PrivateKey) (b : Bool) (e : Error) (st : S)
        → (if b then add_new ec codes db table opts session random₁ now st else (err e, st)).0
          ≡ ok s
        → (open_session ec codes db table opts session random' now'
            (if b then add_new ec codes db table opts session random₁ now st else (err e, st)).1).0
          ≡ ok s
    new-again (ok key) true e st h = added-again key st h
    new-again (err f) true e st h = absurd (cc h)
    new-again random₁ false e st h = absurd (cc h)

    opened-again :
        (p : Result (Session ec) × S)
        → (get_session ec codes db table opts session.passphrase_entropy p.1).0 ≡ p.0
        → (opened_with ec codes db table opts session random now p).0 ≡ ok s
        → (open_session ec codes db table opts session random' now'
            (opened_with ec codes db table opts session random now p).1).0
          ≡ ok s
    unfolding open_session
    opened-again (ok f, st) same h = opened-ok session s random' now' _ (same ∙ h)
    opened-again (err e, st) same h = new-again random (is_session_not_found e) e st h

  -- Over a database and a table that keep their promises: when NewNodeConn has a session for a
  -- passphrase that NewSession takes, found or added, then it has this same session, with its key,
  -- for this passphrase when it is called again, whatever the random source and the clock give
  -- then.
  pub open_session-again :
      (mailbox : Mailbox) (passphrase addr : Bytes) (dev : Bool) (session s : Session ec)
      (random random' : Result ec.PrivateKey) (now now' : Time) (st : S)
      → new_session ec mailbox passphrase addr dev ≡ ok session
      → (open_session ec codes db table opts session random now st).0 ≡ ok s
      → (open_session ec codes db table opts session random' now'
          (open_session ec codes db table opts session random now st).1).0
        ≡ ok s
  unfolding open_session
  open_session-again mailbox passphrase addr dev session s random random' now now' st new =
      opened-again session s (new_session-IsPlainSession ec mailbox passphrase addr dev session new)
        random random' now now' (get_session ec codes db table opts session.passphrase_entropy st)
        (get_session-again st session.passphrase_entropy)
