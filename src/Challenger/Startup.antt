-- ===== src/Challenger/Startup.antt =====
-- NewLndChallenger, Start and NewChallenge of challenger/lnd.go.
use aperture.Prelude.{
  ℕ, zero, suc, List, [], ◌∷◌, if◌then◌else◌, ltb, Bytes, Option, none, some, fail, Result, ok, err,
  ◌>>=◌, ℤ,
}
use aperture.Go.Time.{Time}
use aperture.Go.Maps.{put}
use aperture.L402.Lntypes.{Lntypes}
use aperture.Challenger.{Invoice, InvoiceClient, InvoiceStates, invoice_irrelevant}

-- What Start has found so far.
pub record Found : Type 0 where
  pub add_index : ℕ
  pub settle_index : ℕ
  pub states : InvoiceStates

abbrev max_index : ℕ → ℕ → ℕ
max_index old new = if ltb old new then new else old

abbrev pub found_nothing : Found
found_nothing = record { add_index = 0; settle_index = 0; states = [] }

-- The indices are kept before the hash is parsed.
abbrev pub see_indices : Invoice → Found → Found
see_indices invoice found = record {
  add_index = max_index found.add_index invoice.add_index;
  settle_index = max_index found.settle_index invoice.settle_index;
  states = found.states;
}

unfoldable pub keep_state : Time → Invoice → Found → Result Bytes → Result Found
keep_state now invoice found (err e) = err fail
keep_state now invoice found (ok hash) =
    if invoice_irrelevant now (some invoice)
    then ok found
    else ok (record found { states = put hash invoice.state found.states })

unfoldable pub see_invoice : Lntypes → Time → Invoice → Option Bytes → Found → Result Found
see_invoice ln now invoice none found = ok found
see_invoice ln now invoice (some r_hash) found =
    keep_state now invoice (see_indices invoice found) (ln.make_hash r_hash)

-- The loop over the invoices of one response
unfoldable pub see_invoices : Lntypes → Time → List Invoice → Found → Result Found
see_invoices ln now [] found = ok found
see_invoices ln now (invoice ∷ rest) found =
    see_invoice ln now invoice invoice.r_hash found >>= see_invoices ln now rest

module _ {Stream : Type 0} (ln : Lntypes) (client : InvoiceClient Stream) where
  -- The pagination of Start, from an index offset; `none` when the fuel does not reach the last
  -- page.
  unfoldable pub paginate : ℕ → ℕ → Time → ℕ → Found → Option (Result Found)
  paginate zero batch_size now index_offset found = none
  paginate (suc fuel) batch_size now index_offset found =
      elim (client.list_invoices index_offset batch_size) [
        | err e ↦ some (err e)
        | ok resp ↦ elim resp.invoices [
          | [] ↦ some (ok found)
          | i ∷ is ↦ elim (see_invoices ln now (i ∷ is) found) [
            | err e ↦ some (err e)
            | ok found' ↦ paginate fuel batch_size now resp.last_index_offset found'
          ]
        ]
      ]

  -- The subscription to all that comes after what was found.
  unfoldable pub subscribe : Result Found → Result (InvoiceStates × Stream)
  subscribe found = found >>= (λ f.
      client.subscribe_invoices f.add_index f.settle_index >>= (λ stream. ok (f.states, stream)))

  -- Start: the states that are known, and the stream that the reader reads.
  unfoldable pub start : ℕ → ℕ → Time → Option (Result (InvoiceStates × Stream))
  unfolding subscribe
  start fuel batch_size now = elim (paginate fuel batch_size now 0 found_nothing) [
    | none ↦ none
    | some found ↦ some (subscribe found)
  ]

  -- NewLndChallenger: without a generator of invoice requests there is no challenger.
  unfoldable pub new_lnd_challenger :
      ℕ → ℕ → Time → Option (ℤ → Result Invoice) → Option (Result (InvoiceStates × Stream))
  unfolding start
  new_lnd_challenger fuel batch_size now none = some (err fail)
  new_lnd_challenger fuel batch_size now (some gen_invoice_req) = start fuel batch_size now

  -- NewChallenge
  unfoldable pub new_challenge : (ℤ → Result Invoice) → ℤ → Result (Bytes × Bytes)
  new_challenge gen_invoice_req price = do
    invoice ← gen_invoice_req price
    response ← client.add_invoice invoice
    hash ← ln.make_hash response.payment_hash
    ok (response.payment_request, hash)
