-- ===== src/Hashmail.antt =====
-- hashmail_server.go: mailboxes, which are streams of messages from one writer to one reader. The
-- functions of lnd's tlv package are a parameter.
pub mod Framing
pub mod Collected
pub mod Delivered
pub mod Stream
pub mod Server
pub mod Calls
pub mod World
pub mod Exclusive
pub mod Carried
pub mod Reused
use aperture.Prelude.{
  ℕ, zero, suc, ◌-◌, ◌*◌, ◌%◌, Bool, true, false, List, [], ◌∷◌, ◌++◌, if◌then◌else◌, ◌==◌, Bytes,
  length, take, drop, replicate, Option, none, some, fail, Result, ok, err, ℤ, pos, negsuc,
}

-- newStreamID: 64 bytes, cut or filled with zeros
unfoldable pub new_stream_id : Bytes → Bytes
new_stream_id id = take 64 id ++ replicate (64 - length id) 0

-- baseID
unfoldable pub base_id : Bytes → Bytes
base_id s = take 16 s

abbrev first_is_odd : Bytes → Bool
first_is_odd [] = false
first_is_odd (b ∷ s) = b % 2 == 1

-- isOdd
unfoldable pub is_odd : Bytes → Bool
is_odd s = first_is_odd (drop 63 s)

-- hashMailServerConfig
pub record HashMailServerConfig : Type 0 where
  pub msg_rate : ℤ
  pub msg_burst_allowance : ℤ
  pub stale_timeout : ℤ

abbrev pub default_msg_rate : ℤ
default_msg_rate = pos (500 * 1000000)

abbrev pub default_msg_burst_allowance : ℤ
default_msg_burst_allowance = pos 10

abbrev pub default_stale_timeout : ℤ
default_stale_timeout = pos (3600 * 1000000000)

abbrev pub default_buf_size : ℕ
default_buf_size = 4096

abbrev or_default : ℤ → ℤ → ℤ
or_default (pos zero) d = d
or_default (pos (suc n)) d = pos (suc n)
or_default (negsuc n) d = negsuc n

-- The defaults of newHashMailServer, for what is zero
unfoldable pub with_defaults : HashMailServerConfig → HashMailServerConfig
with_defaults cfg = record {
  msg_rate = or_default cfg.msg_rate default_msg_rate;
  msg_burst_allowance = or_default cfg.msg_burst_allowance default_msg_burst_allowance;
  stale_timeout = or_default cfg.stale_timeout default_stale_timeout;
}

-- hashmailrpc.CipherBoxDesc, CipherBoxAuth and CipherBox: messages of which parts may be missing
pub record CipherBoxDesc : Type 0 where
  pub stream_id : Option Bytes

pub record CipherBoxAuth : Type 0 where
  pub desc : Option CipherBoxDesc
  pub auth : Option (Unit {0})

pub record CipherBox : Type 0 where
  pub desc : Option CipherBoxDesc
  pub msg : Bytes

-- The id of a descriptor that is there and has one; the tests of SendStream.
unfoldable pub id_of : Option CipherBoxDesc → Result Bytes
id_of none = err fail
id_of (some d) = elim d.stream_id [ none ↦ err fail | some id ↦ ok id ]

abbrev with_auth : Option (Unit {0}) → Bytes → Result Bytes
with_auth none id = err fail
with_auth (some u) id = ok id

-- validateAuthReq, with the id that is there when it succeeds
unfoldable pub validate_auth_req : CipherBoxAuth → Result Bytes
unfolding id_of
validate_auth_req req = elim (id_of req.desc) [ err e ↦ err e | ok id ↦ with_auth req.auth id ]

-- ValidateStreamAuth: every mechanism is accepted, for now.
unfoldable pub validate_stream_auth : CipherBoxAuth → Result (Unit {0})
validate_stream_auth init = ok tt
