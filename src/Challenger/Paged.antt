-- ===== src/Challenger/Paged.antt =====
-- Start of challenger/lnd.go reads all invoices, in pages of any size.
use aperture.Prelude.{
  inl, inr, List-cases, ℕ, zero, suc, ◌+◌, ◌<◌, ◌≤◌, ◌≡◌, ◌≢◌, refl, List, [], ◌∷◌, ◌++◌, some, ok,
  ◌>>=◌, arith, Result-cases, is_ok, is_err,
}
use aperture.Go.Time.{Time}
use aperture.L402.Lntypes.{Lntypes}
use aperture.Challenger.{Invoice, InvoiceClient, ListInvoiceResponse}
use aperture.Challenger.Startup.{
  Found, see_invoice, see_invoices, paginate, subscribe, start, found_nothing,
}

-- lnd's invoices in the order of their indices: `after i` are those with a larger index than `i`.
-- A page holds the first of them, is empty only at the end, and gives the index to go on from,
-- which is at most `total`.
pub record IsPaging {Stream : Type 0} (client : InvoiceClient Stream) (batch_size total : ℕ)
    (after : ℕ → List Invoice) : Type 0 where
  pub page : ℕ → ListInvoiceResponse
  pub listed : (i : ℕ) → client.list_invoices i batch_size ≡ ok (page i)
  pub parted : (i : ℕ) → (page i).invoices ++ after (page i).last_index_offset ≡ after i
  pub last : (i : ℕ) → (page i).invoices ≡ [] → after i ≡ []
  pub advances : (i : ℕ) → (page i).invoices ≢ [] → i < (page i).last_index_offset
  pub bounded : (i : ℕ) → (page i).invoices ≢ [] → (page i).last_index_offset ≤ total

see_invoices-append :
    (ln : Lntypes) (now : Time) (xs ys : List Invoice) (f : Found)
    → see_invoices ln now (xs ++ ys) f ≡ see_invoices ln now xs f >>= see_invoices ln now ys
unfolding see_invoices
see_invoices-append ln now [] ys f = refl
see_invoices-append ln now (x ∷ xs) ys f = elim (Result-cases (see_invoice ln now x x.r_hash f)) [
  | is_err e k ↦ ground (arith, k)
  | is_ok g k ↦ ground (arith, k, see_invoices-append ln now xs ys g)
]

module _ {Stream : Type 0} (ln : Lntypes) (client : InvoiceClient Stream) (batch_size total : ℕ)
    (after : ℕ → List Invoice) (paging : IsPaging client batch_size total after) where
  -- A page that is not empty, when the pages after it are read in full.
  paginate-page :
      (fuel : ℕ) (now : Time) (i : ℕ) (f : Found) (x : Invoice) (xs : List Invoice)
      → (paging.page i).invoices ≡ x ∷ xs
      → ((g : Found)
          → paginate ln client fuel batch_size now (paging.page i).last_index_offset g
            ≡ some (see_invoices ln now (after (paging.page i).last_index_offset) g))
      → paginate ln client (suc fuel) batch_size now i f ≡ some (see_invoices ln now (after i) f)
  unfolding paginate
  paginate-page fuel now i f x xs e further =
      let parted : (x ∷ xs) ++ after (paging.page i).last_index_offset ≡ after i =
        ground (arith, paging.parted i, e) in
      let whole = see_invoices-append ln now (x ∷ xs) (after (paging.page i).last_index_offset) f in
      elim (Result-cases (see_invoices ln now (x ∷ xs) f)) [
        | is_err r q ↦ ground (arith, paging.listed i, e, q, whole, parted)
        | is_ok g q ↦ ground (arith, paging.listed i, e, q, whole, parted, further g)
      ]

  paginate-see_invoices :
      (fuel : ℕ) (now : Time) (i : ℕ) (f : Found)
      → i ≤ total
      → total < fuel + i
      → paginate ln client fuel batch_size now i f ≡ some (see_invoices ln now (after i) f)
  unfolding paginate see_invoices
  paginate-see_invoices zero now i f h k = absurd (omega arith)
  paginate-see_invoices (suc fuel) now i f h k = elim (List-cases (paging.page i).invoices) [
    | inl e ↦ ground (arith, paging.listed i, e, paging.last i e)
    | inr (x, xs, e) ↦
        let some_page : (paging.page i).invoices ≢ [] = λ q. cc in
        let further : i < (paging.page i).last_index_offset = paging.advances i some_page in
        let within : (paging.page i).last_index_offset ≤ total = paging.bounded i some_page in
        paginate-page fuel now i f x xs e (λ g.
          paginate-see_invoices fuel now (paging.page i).last_index_offset g within (omega arith))
  ]

  -- When lnd lists its invoices in pages as it documents, Start terminates: with more fuel than
  -- the largest index, it has gone over every invoice once, in their order, as one loop over all
  -- of them would, whatever the size of the batches, and it subscribes from what that loop finds.
  pub start-see_invoices :
      (fuel : ℕ) (now : Time)
      → total < fuel
      → start ln client fuel batch_size now
        ≡ some (subscribe ln client (see_invoices ln now (after 0) found_nothing))
  unfolding start
  start-see_invoices fuel now h =
      ground (arith, paginate-see_invoices fuel now 0 found_nothing (omega arith) (omega arith))
