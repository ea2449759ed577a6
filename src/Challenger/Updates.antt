-- ===== src/Challenger/Updates.antt =====
-- readInvoiceStream of challenger/lnd.go: what each message of the stream does to the states.
use aperture.Prelude.{
  List, [], ◌∷◌, if◌then◌else◌, Bytes, Option, none, some, Error, err_eof, Result, ok, err,
}
use aperture.Go.Time.{Time}
use aperture.Go.Maps.{put, delete}
use aperture.L402.Lntypes.{Lntypes}
use aperture.Challenger.{Invoice, InvoiceStates, invoice_irrelevant}

-- One turn of the loop: the quit channel is closed, or Recv returns an invoice, the end of the
-- stream, an error that speaks of a canceled context, or another error.
pub data StreamEvent : Type 0 where
  quit_closed : StreamEvent
  received : Time → Invoice → StreamEvent
  recv_eof : StreamEvent
  recv_canceled : StreamEvent
  recv_failed : Error → StreamEvent

-- What the turn leads to: the next turn, the next turn after a change of the states that is
-- broadcast, or the end of the loop, with the error that is offered to the main goroutine.
pub data Turn : Type 0 where
  skipped : Turn
  changed : InvoiceStates → Turn
  ended : Option Error → Turn

-- The invoice's new state, under the lock.
unfoldable pub update_state : Time → Invoice → Bytes → InvoiceStates → InvoiceStates
update_state now invoice hash states =
    if invoice_irrelevant now (some invoice)
    then delete hash states
    else put hash invoice.state states

-- The rest of the turn, once the invoice's hash is parsed: an error is only logged.
unfoldable pub update_hash : Time → Invoice → Result Bytes → InvoiceStates → Turn
update_hash now invoice (err e) states = ended none
update_hash now invoice (ok hash) states = changed (update_state now invoice hash states)

-- A received invoice, which may have no payment hash.
unfoldable pub receive : Lntypes → Time → Invoice → Option Bytes → InvoiceStates → Turn
receive ln now invoice none states = skipped
receive ln now invoice (some r_hash) states = update_hash now invoice (ln.make_hash r_hash) states

unfoldable pub turn : Lntypes → StreamEvent → InvoiceStates → Turn
turn ln quit_closed states = ended none
turn ln (received now invoice) states = receive ln now invoice invoice.r_hash states
turn ln recv_eof states = ended (some err_eof)
turn ln recv_canceled states = ended none
turn ln (recv_failed e) states = ended (some e)

-- The reader runs until it has ended; the messages after that are not read.
pub data Reader : Type 0 where
  reading : Reader
  stopped : Option Error → Reader

abbrev pub reader_after : Turn → Reader
reader_after skipped = reading
reader_after (changed states) = reading
reader_after (ended reported) = stopped reported

abbrev pub states_after : Turn → InvoiceStates → InvoiceStates
states_after skipped old = old
states_after (changed states) old = states
states_after (ended reported) old = old

-- readInvoiceStream
unfoldable pub read_stream :
    Lntypes → List StreamEvent → Reader → InvoiceStates → Reader × InvoiceStates
read_stream ln [] reader states = (reader, states)
read_stream ln (e ∷ es) (stopped reported) states = (stopped reported, states)
read_stream ln (e ∷ es) reading states =
    let next = turn ln e states in read_stream ln es (reader_after next) (states_after next states)
