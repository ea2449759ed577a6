-- ===== src/Challenger.antt =====
-- challenger/lnd.go: the invoices of an lnd node and their states. The client of lnd is a parameter.
pub mod Updates
pub mod Startup
pub mod Wait
pub mod Paged
pub mod Observed
pub mod Awaited
pub mod Settled
use aperture.Prelude.{
  ℕ, Bool, true, false, ◌&&◌, ◌||◌, List, [], ◌∷◌, if◌then◌else◌, Bytes, Option, none, some, Result,
  ok, err, ltb, ℤ,
}
use aperture.Go.Time.{Time, before, time_unix, seconds, add_duration}
use aperture.L402.Lntypes.{Lntypes}

-- lnrpc.Invoice_InvoiceState
pub data InvoiceState : Type 0 where
  invoice_open invoice_settled invoice_canceled invoice_accepted : InvoiceState

abbrev pub state_eq : InvoiceState → InvoiceState → Bool
state_eq invoice_open invoice_open = true
state_eq invoice_settled invoice_settled = true
state_eq invoice_canceled invoice_canceled = true
state_eq invoice_accepted invoice_accepted = true
state_eq _ _ = false

-- The fields of lnrpc.Invoice that the challenger reads; RHash may be nil.
pub record Invoice : Type 0 where
  pub r_hash : Option Bytes
  pub state : InvoiceState
  pub add_index : ℕ
  pub settle_index : ℕ
  pub creation_date : ℤ
  pub expiry : ℤ

pub record ListInvoiceResponse : Type 0 where
  pub invoices : List Invoice
  pub last_index_offset : ℕ

pub record AddInvoiceResponse : Type 0 where
  pub payment_hash : Bytes
  pub payment_request : Bytes

-- InvoiceClient, whose streams of updates are a type of its own
pub record InvoiceClient (Stream : Type 0) : Type 0 where
  pub list_invoices : ℕ → ℕ → Result ListInvoiceResponse
  pub subscribe_invoices : ℕ → ℕ → Result Stream
  pub add_invoice : Invoice → Result AddInvoiceResponse

-- invoiceStates
abbrev pub InvoiceStates : Type 0
InvoiceStates = List (Bytes × InvoiceState)

-- invoiceIrrelevant, at the time `now`
unfoldable pub invoice_irrelevant : Time → Option Invoice → Bool
invoice_irrelevant now none = true
invoice_irrelevant now (some invoice) =
    let creation = time_unix invoice.creation_date in
    let expiration = add_duration creation (seconds invoice.expiry) in
    let expired = before expiration now in
    let not_settled =
      state_eq invoice.state invoice_open || state_eq invoice.state invoice_accepted in
    state_eq invoice.state invoice_canceled || (expired && not_settled)
