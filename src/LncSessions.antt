-- ===== src/LncSessions.antt =====
-- lnc/session.go, aperturedb/lnc_sessions.go and NewNodeConn of lnc/lnc.go: the sessions of Lightning
-- Node Connect, in a table of an SQL database. The keys of btcec, the mailbox package and the table
-- are parameters.
pub mod Found
pub mod Reopened
use aperture.Prelude.{
  ℕ, ◌-◌, ◌%◌, Bool, true, false, not, List, [], ◌∷◌, ◌==◌, if◌then◌else◌, Bytes, length, Option,
  none, some, Error, fail, err_no_rows, err_session_not_found, Result, ok, err, ◌>>=◌,
}
use aperture.Go.Strings.{split}
use aperture.Go.Time.{Time}
use aperture.Database.{SqlCodes, BatchedQuerier, TxExecutorOptions, exec_tx}

-- The keys of btcec
pub record Btcec : Type 1 where
  pub PrivateKey : Type 0
  pub PublicKey : Type 0
  pub serialize : PrivateKey → Bytes
  pub priv_key_from_bytes : Bytes → PrivateKey
  pub parse_pub_key : Bytes → Result PublicKey

-- NumPassphraseWords and PassphraseMnemonicToEntropy of the mailbox package
pub record Mailbox : Type 0 where
  pub num_passphrase_words : ℕ
  pub mnemonic_to_entropy : List Bytes → Bytes

-- Session
pub record Session (ec : Btcec) : Type 0 where
  pub passphrase_words : Bytes
  pub passphrase_entropy : Bytes
  pub remote_static_pub_key : Option ec.PublicKey
  pub local_static_priv_key : Option ec.PrivateKey
  pub mailbox_addr : Bytes
  pub created_at : Option Time
  pub expiry : Option Time
  pub dev_server : Bool

abbrev is_empty : Bytes → Bool
is_empty [] = true
is_empty (c ∷ s) = false

-- NewSession
unfoldable pub new_session : (ec : Btcec) → Mailbox → Bytes → Bytes → Bool → Result (Session ec)
new_session ec mailbox passphrase mailbox_addr dev_server =
    let words = split b' ' passphrase in
    if is_empty passphrase
    then err fail
    else (if is_empty mailbox_addr
        then err fail
        else (if not (length words == mailbox.num_passphrase_words)
            then err fail
            else ok (record {
              passphrase_words = passphrase;
              passphrase_entropy = mailbox.mnemonic_to_entropy words;
              remote_static_pub_key = none;
              local_static_priv_key = none;
              mailbox_addr = mailbox_addr;
              created_at = none;
              expiry = none;
              dev_server = dev_server;
            })))

-- A row of the table
pub record LncSession : Type 0 where
  pub passphrase_words : Bytes
  pub passphrase_entropy : Bytes
  pub remote_static_pub_key : Option Bytes
  pub local_static_priv_key : Bytes
  pub mailbox_addr : Bytes
  pub created_at : Time
  pub expiry : Option Time
  pub dev_server : Bool

-- LNCSessionsDB; an insertion takes the row without a remote key.
pub record LncSessionsDb (T : Type 0) : Type 0 where
  pub insert_session : T → LncSession → Result (Unit {0}) × T
  pub get_session : T → Bytes → Result LncSession
  pub set_remote_pub_key : T → Bytes → Bytes → Result (Unit {0}) × T
  pub set_expiry : T → Bytes → Time → Result (Unit {0}) × T

-- Truncate(time.Microsecond)
unfoldable pub truncate_micro : Time → Time
truncate_micro t = record t { nsec = t.nsec - t.nsec % 1000 }

abbrev parse_remote : (ec : Btcec) → Option Bytes → Result (Option ec.PublicKey)
parse_remote ec none = ok none
parse_remote ec (some bytes) = elim (ec.parse_pub_key bytes) [ ok k ↦ ok (some k) | err e ↦ err e ]

-- The session of a row
unfoldable pub session_of : (ec : Btcec) → LncSession → Result (Session ec)
session_of ec row = parse_remote ec row.remote_static_pub_key >>= (λ remote. ok (record {
  passphrase_words = row.passphrase_words;
  passphrase_entropy = row.passphrase_entropy;
  remote_static_pub_key = remote;
  local_static_priv_key = some (ec.priv_key_from_bytes row.local_static_priv_key);
  mailbox_addr = row.mailbox_addr;
  created_at = some row.created_at;
  expiry = row.expiry;
  dev_server = row.dev_server;
}))

-- errors.Is(err, ErrSessionNotFound)
abbrev pub is_session_not_found : Error → Bool
is_session_not_found err_session_not_found = true
is_session_not_found e = false

-- What GetSession makes of the answer of the table
unfoldable pub read_session : (ec : Btcec) → Result LncSession → Result (Session ec)
unfolding session_of
read_session ec (err err_no_rows) = err err_session_not_found
read_session ec (err e) = err e
read_session ec (ok row) = session_of ec row

module _ {S T : Type 0} (ec : Btcec) (codes : SqlCodes) (db : BatchedQuerier S T)
    (table : LncSessionsDb T) (opts : TxExecutorOptions) where
  -- The row of a session, with its key
  abbrev pub row_of : Session ec → ec.PrivateKey → Time → LncSession
  row_of session key now = record {
    passphrase_words = session.passphrase_words;
    passphrase_entropy = session.passphrase_entropy;
    remote_static_pub_key = none;
    local_static_priv_key = ec.serialize key;
    mailbox_addr = session.mailbox_addr;
    created_at = truncate_micro now;
    expiry = none;
    dev_server = session.dev_server;
  }

  abbrev pub with_created : Session ec → Time → Result (Unit {0}) × S → Result (Session ec) × S
  with_created session now (err e, st) = (err fail, st)
  with_created session now (ok u, st) =
      (ok (record session { created_at = some (truncate_micro now) }), st)

  -- AddSession, with the session as it is after the call; it needs a key.
  abbrev pub add_with : Session ec → Option ec.PrivateKey → Time → S → Result (Session ec) × S
  add_with session none now st = (err fail, st)
  add_with session (some key) now st =
      with_created session now
        (exec_tx codes db opts (λ t. table.insert_session t (row_of session key now)) st)

  unfoldable pub add_session : Session ec → Time → S → Result (Session ec) × S
  unfolding truncate_micro
  add_session session now st = add_with session session.local_static_priv_key now st

  -- GetSession
  unfoldable pub get_session : Bytes → S → Result (Session ec) × S
  unfolding read_session
  get_session entropy st =
      exec_tx codes db opts (λ t. (read_session ec (table.get_session t entropy), t)) st

  -- SetRemotePubKey and SetExpiry
  unfoldable pub set_remote_pub_key : Bytes → Bytes → S → Result (Unit {0}) × S
  set_remote_pub_key entropy key st =
      exec_tx codes db opts (λ t. table.set_remote_pub_key t entropy key) st

  unfoldable pub set_expiry : Bytes → Time → S → Result (Unit {0}) × S
  set_expiry entropy expiry st = exec_tx codes db opts (λ t. table.set_expiry t entropy expiry) st

  -- NewNodeConn, where the answer of GetSession has no session, with btcec.NewPrivateKey as an
  -- answer, and where it is any answer
  abbrev pub add_new : Session ec → Result ec.PrivateKey → Time → S → Result (Session ec) × S
  add_new session (err e) now st = (err fail, st)
  add_new session (ok key) now st =
      add_session (record session { local_static_priv_key = some key }) now st

  abbrev pub opened_with :
      Session ec → Result ec.PrivateKey → Time → Result (Session ec) × S → Result (Session ec) × S
  opened_with session random now (ok found, st) = (ok found, st)
  opened_with session random now (err e, st) =
      if is_session_not_found e then add_new session random now st else (err e, st)

  -- The session of NewNodeConn, before it connects
  unfoldable pub open_session :
      Session ec → Result ec.PrivateKey → Time → S → Result (Session ec) × S
  unfolding add_session
  open_session session random now st =
      opened_with session random now (get_session session.passphrase_entropy st)
