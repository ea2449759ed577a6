-- ===== src/Tests/ChallengerRuns.antt =====
-- A small lnd node, runs of the challenger, and instances of the theorems about it.
use mathlib.Core.List.Perm
use aperture.Prelude.{
  bytes_eq, ◌+ℤ◌, ◌+ℤ◌, ℕ, zero, suc, ◌+◌, ◌≡◌, refl, inl, true, List, [], ◌∷◌, ◌++◌, Bytes, codes,
  replicate, some, Result, ok, err, fail, pos, arith,
}
use aperture.Go.Time.{time_unix, before, saturated, seconds, add_duration, Time}
use aperture.Go.Maps.{put, lookup}
use aperture.L402.Header.RoundTrip.{set_header-ok}
use aperture.Auth.{accept_l402}
use aperture.Auth.Accepted.{minter_of, IsAccepted}
use aperture.Challenger.{
  invoice_irrelevant, Invoice, InvoiceStates, InvoiceClient, ListInvoiceResponse, invoice_open,
  invoice_settled, invoice_canceled, InvoiceState,
}
use aperture.Challenger.Updates.{
  turn, receive, update_hash, update_state, received, recv_eof, Reader, reading, read_stream,
}
use aperture.Challenger.Startup.{
  keep_state, see_invoice, start, see_invoices, subscribe, found_nothing, paginate,
}
use aperture.Challenger.Paged.{IsPaging, start-see_invoices}
use aperture.Challenger.Observed.{IsTracked, start-IsTracked}
use aperture.Challenger.Wait.{
  WaitEvent, run, step, stream, alarm, look, call_of, verify_invoice_status, invoice_checker,
}
use aperture.Challenger.Awaited.{IsSeen, verify_invoice_status-alarm}
use aperture.Challenger.Settled.{accept_l402-IsSeen, accept-update}
use aperture.Tests.Macaroons.{toys, toys-IsMacaroonLib}
use aperture.Tests.MintRuns.{toy_store-IsSecretStore, Secrets, later, services, runs}
use aperture.Tests.RequestRuns.{
  paid_config, bought, bought_mac, paid_with, bought_allowed, toy_ln, toy_ln-IsLntypes, proof,
  proof-IsPreimage, marshaled, marshal-marshaled,
}

abbrev at : ℕ → Time
at n = record { sec = pos (62135596800 + n); nsec = 0 }

-- An invoice that is created at the second 100 and expires after 60 seconds.
abbrev invoice_of : ℕ → Bytes → InvoiceState → Invoice
invoice_of index hash state = record {
  r_hash = some hash;
  state = state;
  add_index = index;
  settle_index = 0;
  creation_date = pos 100;
  expiry = pos 60;
}

abbrev hash_a : Bytes
hash_a = replicate 32 1

abbrev hash_b : Bytes
hash_b = replicate 32 2

abbrev hash_c : Bytes
hash_c = replicate 32 3

abbrev open_a : Invoice
open_a = invoice_of 1 hash_a invoice_open

abbrev settled_b : Invoice
settled_b = invoice_of 2 hash_b invoice_settled

abbrev canceled_c : Invoice
canceled_c = invoice_of 3 hash_c invoice_canceled

abbrev after : ℕ → List Invoice
after zero = open_a ∷ settled_b ∷ canceled_c ∷ []
after (suc zero) = settled_b ∷ canceled_c ∷ []
after (suc (suc zero)) = canceled_c ∷ []
after (suc (suc (suc n))) = []

-- Two invoices a page
abbrev page : ℕ → ListInvoiceResponse
page zero = record { invoices = open_a ∷ settled_b ∷ []; last_index_offset = 2 }
page (suc zero) = record { invoices = settled_b ∷ canceled_c ∷ []; last_index_offset = 3 }
page (suc (suc zero)) = record { invoices = canceled_c ∷ []; last_index_offset = 3 }
page (suc (suc (suc n))) = record { invoices = []; last_index_offset = 3 }

abbrev node : InvoiceClient (ℕ × ℕ)
node = record {
  list_invoices = λ i n. ok (page i);
  subscribe_invoices = λ a s. ok (a, s);
  add_invoice = λ i. err fail;
}

parts : (i : ℕ) → (page i).invoices ++ after (page i).last_index_offset ≡ after i
parts zero = refl
parts (suc zero) = refl
parts (suc (suc zero)) = refl
parts (suc (suc (suc n))) = refl

node-IsPaging : IsPaging node 2 3 after
node-IsPaging = record {
  page = page;
  listed = λ i. refl;
  parted = parts;
  last = λ i h. ground arith;
  advances = λ i h. ground arith;
  bounded = λ i h. ground arith;
}

start-see_invoices_example :
    start toy_ln node 4 2 (at 120)
    ≡ some (subscribe toy_ln node (see_invoices toy_ln (at 120) (after 0) found_nothing))
start-see_invoices_example =
    start-see_invoices toy_ln node 2 3 after node-IsPaging 4 (at 120) (omega arith)

unfoldable waits : Unit {0}
unfolding step lookup bytes_eq turn receive update_hash update_state invoice_irrelevant before
    add_duration seconds saturated time_unix put ◌+ℤ◌
waits = tt

abbrev listed : InvoiceStates
listed = (hash_a, invoice_open) ∷ (hash_b, invoice_settled) ∷ []

start_run : start toy_ln node 4 2 (at 120) ≡ some (ok (listed, (3, 0)))
unfolding start paginate see_invoices see_invoice keep_state subscribe waits
start_run = refl

start-IsTracked_example :
    IsTracked (read_stream toy_ln (received (at 130) canceled_c ∷ recv_eof ∷ []) reading listed).1
start-IsTracked_example =
    start-IsTracked toy_ln node 4 2 (at 120) listed (3, 0)
      (received (at 130) canceled_c ∷ recv_eof ∷ []) start_run

-- The update arrives after the first look.
abbrev paid_in_time : List WaitEvent
paid_in_time =
    look ∷ stream (received (at 130) (record open_a { state = invoice_settled })) ∷ look ∷ []

paid_run :
    verify_invoice_status toy_ln hash_a invoice_settled paid_in_time (call_of listed reading)
    ≡ some (ok tt)
unfolding verify_invoice_status waits
paid_run = refl

late_run :
    verify_invoice_status toy_ln hash_a invoice_settled
      (look ∷ alarm ∷ look ∷ [])
      (call_of listed reading)
    ≡ some (err fail)
unfolding verify_invoice_status waits
late_run = refl

verify_invoice_status-alarm_example :
    (r : Result (Unit {0})) × (verify_invoice_status toy_ln hash_a invoice_settled
        (look ∷ alarm ∷ look ∷ [])
        (call_of listed reading)
      ≡ some r)
verify_invoice_status-alarm_example =
    verify_invoice_status-alarm toy_ln hash_a invoice_settled (look ∷ []) [] []
      (call_of listed reading)

-- The challenger of the mint's state: no invoice is known yet.
abbrev no_invoices : Secrets → InvoiceStates × Reader
no_invoices st = ([], reading)

abbrev payment : Invoice
payment = invoice_of 7 proof invoice_settled

abbrev paid_while_waiting : List WaitEvent
paid_while_waiting = look ∷ (stream (received (at 600) payment) ∷ (alarm ∷ (look ∷ [])))

let_in :
    accept_l402 toys toy_ln
      (minter_of toys (record paid_config { now = later }))
      (invoice_checker toy_ln no_invoices paid_while_waiting)
      bought.1
      paid_with
      (codes "loop")
    ≡ true
unfolding runs run step
let_in =
    accept-update toys toy_ln toys-IsMacaroonLib toy_ln-IsLntypes no_invoices paid_config
      toy_store-IsSecretStore (λ m. Perm.refl m) [] bought.1 services bought_mac (codes "lnbc")
      proof (replicate 32 7) (codes "loop") later [] paid_with (at 600) payment proof (look ∷ [])
      (alarm ∷ []) [] refl refl refl refl refl (omega arith) (inl refl) bought_allowed
      proof-IsPreimage
      (set_header-ok toys toy_ln toys-IsMacaroonLib toy_ln-IsLntypes [] bought_mac proof
        (marshaled bought_mac) (marshal-marshaled bought_mac))
      refl refl refl refl refl (tt, tt)

accept-update_example :
    accept_l402 toys toy_ln
      (minter_of toys (record paid_config { now = later }))
      (invoice_checker toy_ln no_invoices paid_while_waiting)
      bought.1
      paid_with
      (codes "loop")
    ≡ true
unfolding runs run step
accept-update_example =
    accept-update toys toy_ln toys-IsMacaroonLib toy_ln-IsLntypes no_invoices paid_config
      toy_store-IsSecretStore (λ m. Perm.refl m) [] bought.1 services bought_mac (codes "lnbc")
      proof (replicate 32 7) (codes "loop") later [] paid_with (at 600) payment proof (look ∷ [])
      (alarm ∷ []) [] refl refl refl refl refl (omega arith) (inl refl) bought_allowed
      proof-IsPreimage
      (set_header-ok toys toy_ln toys-IsMacaroonLib toy_ln-IsLntypes [] bought_mac proof
        (marshaled bought_mac) (marshal-marshaled bought_mac))
      refl refl refl refl refl (tt, tt)

accept_l402-IsSeen_example :
    (a : IsAccepted toys toy_ln
      (minter_of toys (record paid_config { now = later }))
      (invoice_checker toy_ln no_invoices paid_while_waiting)
      bought.1
      paid_with
      (codes "loop"))
    × IsSeen toy_ln
        (toy_ln.preimage_hash a.preimage)
        invoice_settled
        paid_while_waiting
        (call_of [] reading)
accept_l402-IsSeen_example =
    accept_l402-IsSeen toys toy_ln no_invoices (minter_of toys (record paid_config { now = later }))
      paid_while_waiting bought.1 paid_with (codes "loop") let_in
