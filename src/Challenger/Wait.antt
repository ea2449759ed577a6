-- ===== src/Challenger/Wait.antt =====
-- VerifyInvoiceStatus of challenger/lnd.go beside the reader of the stream: a schedule is the order
-- in which the goroutines get the lock.
use aperture.Prelude.{
  Bool, true, false, ◌&&◌, ◌||◌, not, List, [], ◌∷◌, if◌then◌else◌, Bytes, Option, none, some, fail,
  Result, ok, err,
}
use aperture.Go.Maps.{lookup}
use aperture.L402.Lntypes.{Lntypes}
use aperture.Auth.{InvoiceChecker}
use aperture.Challenger.{InvoiceState, invoice_settled, state_eq, InvoiceStates}
use aperture.Challenger.Updates.{
  StreamEvent, Turn, skipped, changed, ended, turn, Reader, reading, stopped, reader_after,
  states_after,
}

-- A turn of the reader; the goroutine that waits for the timeout, the end of the wait or the quit
-- channel goes on; the waiting goroutine takes the lock, at first or after a broadcast.
pub data WaitEvent : Type 0 where
  stream : StreamEvent → WaitEvent
  alarm : WaitEvent
  look : WaitEvent

-- The challenger's states and its reader, and the variables of the call. `woken` is set while the
-- waiting goroutine is not blocked in Wait; `outcome` is what it has seen last, once it is done.
pub record Waiting : Type 0 where
  pub states : InvoiceStates
  pub reader : Reader
  pub timeout_reached : Bool
  pub woken : Bool
  pub outcome : Option (Option InvoiceState)

abbrev pub call_of : InvoiceStates → Reader → Waiting
call_of states reader = record {
  states = states;
  reader = reader;
  timeout_reached = false;
  woken = true;
  outcome = none;
}

-- hasInvoice && invoiceState == state
abbrev pub is_wanted : InvoiceState → Option InvoiceState → Bool
is_wanted wanted none = false
is_wanted wanted (some state) = state_eq state wanted

abbrev pub is_change : Turn → Bool
is_change skipped = false
is_change (changed states) = true
is_change (ended reported) = false

-- What a turn of the reader leaves, with the broadcast.
abbrev pub after_turn : Turn → Waiting → Waiting
after_turn next w = record w {
  states = states_after next w.states;
  reader = reader_after next;
  woken = w.woken || is_change next;
}

unfoldable pub stream_step : Lntypes → StreamEvent → Reader → Waiting → Waiting
stream_step ln e reading w = after_turn (turn ln e w.states) w
stream_step ln e (stopped reported) w = w

-- The condition of the loop, with the lock held.
unfoldable pub look_step : InvoiceState → Option InvoiceState → Waiting → Waiting
look_step wanted seen w =
    if is_wanted wanted seen || w.timeout_reached
    then record w { outcome = some seen }
    else record w { woken = false }

abbrev pub is_none : Option (Option InvoiceState) → Bool
is_none none = true
is_none (some seen) = false

unfoldable pub step : Lntypes → Bytes → InvoiceState → WaitEvent → Waiting → Waiting
unfolding stream_step look_step
step ln hash wanted (stream e) w = stream_step ln e w.reader w
step ln hash wanted alarm w = record w { timeout_reached = true; woken = true }
step ln hash wanted look w =
    if w.woken && is_none w.outcome then look_step wanted (lookup hash w.states) w else w

unfoldable pub run : Lntypes → Bytes → InvoiceState → List WaitEvent → Waiting → Waiting
run ln hash wanted [] w = w
run ln hash wanted (e ∷ es) w = run ln hash wanted es (step ln hash wanted e w)

-- The interpretation of the result
unfoldable pub verdict : InvoiceState → Option InvoiceState → Result (Unit {0})
verdict wanted none = err fail
verdict wanted (some state) = if not (state_eq state wanted) then err fail else ok tt

unfoldable pub verdict_of : InvoiceState → Option (Option InvoiceState) → Option (Result (Unit {0}))
unfolding verdict
verdict_of wanted none = none
verdict_of wanted (some seen) = some (verdict wanted seen)

-- VerifyInvoiceStatus, over a schedule; `none` when the schedule ends before the wait is over.
unfoldable pub verify_invoice_status :
    Lntypes → Bytes → InvoiceState → List WaitEvent → Waiting → Option (Result (Unit {0}))
unfolding run verdict_of
verify_invoice_status ln hash wanted es w = verdict_of wanted (run ln hash wanted es w).outcome

-- A call that is not over within the schedule has not succeeded.
abbrev pub or_refused : Option (Result (Unit {0})) → Result (Unit {0})
or_refused none = err fail
or_refused (some r) = r

-- The challenger as the authenticator's checker, in a state that it is a part of: a call meets some
-- schedule.
abbrev pub invoice_checker :
    {S : Type 0} → Lntypes → (S → InvoiceStates × Reader) → List WaitEvent → InvoiceChecker S
invoice_checker ln part es = record {
  verify_invoice_settled = λ st hash.
      or_refused
        (verify_invoice_status ln hash invoice_settled es (call_of (part st).0 (part st).1));
}
