-- ===== src/LncSessions/Found.antt =====
-- The session store of aperturedb/lnc_sessions.go finds the sessions that are added to it.
use aperture.Prelude.{
  ◌%◌, ◌≤◌, ◌≡◌, ◌≢◌, ◌∙◌, sym, ap, subst, refl, Bytes, Option, none, some, or_err, err_no_rows,
  err_session_not_found, Error, Result, ok, err, Result-cases, is_ok, is_err, arith,
}
use aperture.Go.Time.{Time}
use aperture.Database.{SqlCodes, BatchedQuerier, TxExecutorOptions, exec_tx, map_sql_error}
use aperture.Database.Atomic.{
  IsReadable, exec_tx-read, IsFinal, IsTransactional, IsAtomic, exec_tx-IsAtomic,
}
use aperture.LncSessions.{
  Btcec, Session, LncSession, LncSessionsDb, truncate_micro, session_of, read_session, row_of,
  with_created, add_with, add_session, get_session,
}

-- The table, as the row of each entropy.
abbrev pub Sessions : Type 0
Sessions = Bytes → Option LncSession

-- An insertion that succeeds, of a row whose time the table can hold, adds the row, and leaves the
-- others alone; a selection finds what is there.
pub record IsLncSessionsDb {T : Type 0} (table : LncSessionsDb T) (tx_view : T → Sessions)
    : Type 0 where
  pub inserted :
      (t : T) (row : LncSession)
      → row.created_at.nsec % 1000 ≡ 0
      → (table.insert_session t row).0 ≡ ok tt
      → tx_view (table.insert_session t row).1 row.passphrase_entropy ≡ some row
  pub inserted_ne :
      (t : T) (row : LncSession) (other : Bytes)
      → (table.insert_session t row).0 ≡ ok tt
      → other ≢ row.passphrase_entropy
      → tx_view (table.insert_session t row).1 other ≡ tx_view t other
  pub selected :
      (t : T) (entropy : Bytes)
      → table.get_session t entropy ≡ or_err (tx_view t entropy) err_no_rows

truncate_micro-nsec : (t : Time) → (truncate_micro t).nsec % 1000 ≡ 0
unfolding truncate_micro
truncate_micro-nsec t = omega arith

-- A key that is written is read again, and an error of the parser is none of the database.
pub record IsBtcec (ec : Btcec) (codes : SqlCodes) : Type 0 where
  pub key_again : (key : ec.PrivateKey) → ec.priv_key_from_bytes (ec.serialize key) ≡ key
  pub parse_final : (bytes : Bytes) (e : Error) → ec.parse_pub_key bytes ≡ err e → IsFinal codes e

module _ (ec : Btcec) (codes : SqlCodes) (keys : IsBtcec ec codes) where
  -- What GetSession answers for what the table holds.
  abbrev pub found : Option LncSession → Result (Session ec)
  found o = read_session ec (or_err o err_no_rows)

  session_of-IsFinal :
      (row : LncSession) (e : Error) (remote : Option Bytes)
      → row.remote_static_pub_key ≡ remote
      → session_of ec row ≡ err e
      → IsFinal codes e
  unfolding session_of
  session_of-IsFinal row e none k h = absurd (ground (arith, k, h))
  session_of-IsFinal row e (some bytes) k h = elim (Result-cases (ec.parse_pub_key bytes)) [
    | is_ok key p ↦ absurd (ground (arith, k, p, h))
    | is_err f p ↦
        let same : f ≡ e = ground (arith, k, p, h) in
        subst (IsFinal codes) same (keys.parse_final bytes f p)
  ]

  found-IsFinal : (o : Option LncSession) (e : Error) → found o ≡ err e → IsFinal codes e
  unfolding map_sql_error read_session
  found-IsFinal none e h =
      let same : err_session_not_found ≡ e = cc h in subst (IsFinal codes) same (refl, refl)
  found-IsFinal (some row) e h = session_of-IsFinal row e row.remote_static_pub_key refl h

module _ {S T : Type 0} (ec : Btcec) (codes : SqlCodes) (keys : IsBtcec ec codes)
    (db : BatchedQuerier S T) (view : S → Sessions) (tx_view : T → Sessions)
    (laws : IsTransactional db view tx_view) (readable : IsReadable db view tx_view)
    (table : LncSessionsDb T) (keeps : IsLncSessionsDb table tx_view) (opts : TxExecutorOptions)
    (some_try : 1 ≤ opts.num_retries) where
  pub get_session-found :
      (st : S) (entropy : Bytes)
      → (get_session ec codes db table opts entropy st).0 ≡ found ec codes keys (view st entropy)
  unfolding get_session
  get_session-found st entropy =
      exec_tx-read codes db view tx_view laws readable (λ v. found ec codes keys (v entropy))
        (λ v e h. found-IsFinal ec codes keys (v entropy) e h)
        (λ t. (read_session ec (table.get_session t entropy), t))
        (λ t. ap (λ r. (read_session ec r, t)) (keeps.selected t entropy)) opts st some_try

  found-row :
      (session : Session ec) (key : ec.PrivateKey) (now : Time)
      → session.local_static_priv_key ≡ some key
      → found ec codes keys (some (row_of ec codes db table opts session key now))
        ≡ ok (record session {
          remote_static_pub_key = none;
          created_at = some (truncate_micro now);
          expiry = none;
        })
  unfolding read_session session_of
  found-row session key now h = rw (keys.key_again key, h) refl

  module _ (row : LncSession) (micro : row.created_at.nsec % 1000 ≡ 0) where
    insert : T → Result (Unit {0}) × T
    insert t = table.insert_session t row

    insert-view :
        (p : Result (Unit {0}) × S) (st : S) (other : Bytes)
        → IsAtomic codes db view tx_view insert (view st) p
        → p.0 ≡ ok tt
        → other ≢ row.passphrase_entropy
        → (view p.1 row.passphrase_entropy ≡ some row) × (view p.1 other ≡ view st other)
    unfolding insert
    insert-view (err e, st') st other c h n = absurd (cc h)
    insert-view (ok u, st') st other c h n =
        let ran : (insert c.opened).0 ≡ ok tt = ap (λ p. p.0) c.ran in
        let left : tx_view c.closed ≡ tx_view (insert c.opened).1 =
          ap (λ p. tx_view p.1) (sym c.ran) in
        (
          ap (λ v. v row.passphrase_entropy) (c.written ∙ left)
              ∙ keeps.inserted c.opened row micro ran,
          ap (λ v. v other) (c.written ∙ left)
              ∙ (keeps.inserted_ne c.opened row other ran n ∙ ap (λ v. v other) c.read),
        )

  abbrev pub insert_row : Session ec → ec.PrivateKey → Time → S → Result (Unit {0}) × S
  insert_row session key now st =
      exec_tx codes db opts
        (λ t. table.insert_session t (row_of ec codes db table opts session key now)) st

  -- A call that succeeds had a key, and has inserted its row.
  pub record IsAdded (session added : Session ec) (now : Time) (k : Option ec.PrivateKey)
      (st st' : S) : Type 0 where
    key : ec.PrivateKey
    has : k ≡ some key
    pub same : added ≡ record session { created_at = some (truncate_micro now) }
    ran : (insert_row session key now st).0 ≡ ok tt
    left : st' ≡ (insert_row session key now st).1

  with_created-ok :
      (session added : Session ec) (now : Time) (p : Result (Unit {0}) × S)
      → (with_created ec codes db table opts session now p).0 ≡ ok added
      → (added ≡ record session { created_at = some (truncate_micro now) })
        × (p.0 ≡ ok tt)
        × ((with_created ec codes db table opts session now p).1 ≡ p.1)
  with_created-ok session added now (err e, st) h = absurd (cc h)
  with_created-ok session added now (ok u, st) h = (cc h, refl, refl)

  pub add_with-IsAdded :
      (session added : Session ec) (now : Time) (k : Option ec.PrivateKey) (st : S)
      → (add_with ec codes db table opts session k now st).0 ≡ ok added
      → IsAdded session added now k st (add_with ec codes db table opts session k now st).1
  add_with-IsAdded session added now none st h = absurd (cc h)
  add_with-IsAdded session added now (some key) st h =
      let (same, ran, left) = with_created-ok session added now (insert_row session key now st) h in
      record { key = key; has = refl; same = same; ran = ran; left = left }

  without : Session ec → Session ec
  without s = record s { remote_static_pub_key = none; expiry = none }

  -- Over a database and a table that keep their promises: after AddSession succeeds, GetSession
  -- finds the session by its entropy as AddSession left it, with the key and the time of creation,
  -- and with no remote key and no expiry, and finds what it found before by every other entropy.
  pub get_session-add_session :
      (session added : Session ec) (now : Time) (st : S) (other : Bytes)
      → (add_session ec codes db table opts session now st).0 ≡ ok added
      → other ≢ session.passphrase_entropy
      → ((get_session ec codes db table opts session.passphrase_entropy
            (add_session ec codes db table opts session now st).1).0
          ≡ ok (record added { remote_static_pub_key = none; expiry = none }))
        × ((get_session ec codes db table opts other
              (add_session ec codes db table opts session now st).1).0
            ≡ (get_session ec codes db table opts other st).0)
  unfolding insert add_session without
  get_session-add_session session added now st other h n =
      let c = add_with-IsAdded session added now session.local_static_priv_key st h in
      let row : LncSession = row_of ec codes db table opts session c.key now in
      let (here, elsewhere) =
        insert-view row (truncate_micro-nsec now)
          (exec_tx codes db opts (λ t. table.insert_session t row) st) st other
          (exec_tx-IsAtomic codes db view tx_view (λ t. table.insert_session t row) laws opts st)
          c.ran n in
      (
        get_session-found _ session.passphrase_entropy
            ∙ (ap (found ec codes keys) (ap (λ s. view s session.passphrase_entropy) c.left ∙ here)
                ∙ (found-row session c.key now c.has ∙ ap (λ s. ok (without s)) (sym c.same))),
        get_session-found _ other
            ∙ (ap (found ec codes keys) (ap (λ s. view s other) c.left ∙ elsewhere)
                ∙ sym (get_session-found st other)),
      )
