-- ===== src/L402/FileStore/Steps.antt =====
-- What StoreToken of l402/store.go does to the store.
use aperture.Prelude.{
  ◌≡◌, ◌≢◌, refl, sym, ap, ◌∙◌, true, false, Bytes, bytes_eq, bytes_eq_iff, none, Option-cases, ok,
  err, Error, err_no_token, ℤ, arith, inl, inr, Result-cases, is_ok, is_err, if◌then◌else◌,
  Bool-cases,
}
use aperture.Go.Maps.{lookup, put, lookup-put}
use aperture.L402.Macaroon.{MacaroonLib}
use aperture.L402.Lntypes.{Lntypes}
use aperture.L402.Token.{Token, is_pending, serialize_token}
use aperture.L402.FileStore.{
  is_no_token, Disk, Faults, store_file_name, store_file_name_pending, write_file, remove_file,
  current_token, store_first, store_over, store_token,
}

-- The calls that only look at files do not fail.
pub record CanRead (os : Faults) : Type 0 where
  pub stats : (name : Bytes) → os.stat_fault name ≡ none
  pub reads : (name : Bytes) → os.read_fault name ≡ none

is_no_token-eq : (e : Error) → is_no_token e ≡ true → e ≡ err_no_token
is_no_token-eq err_no_token h = refl
is_no_token-eq _ h = absurd (cc h)

module _ (lib : MacaroonLib) (ln : Lntypes) where
  -- What a call of StoreToken that succeeds has done.
  pub data Stored (now : ℤ) (os : Faults) (t : Token lib) (disk disk' : Disk) : Type 0 where
    stored_first :
        (bytes : Bytes)
        → serialize_token lib ln t ≡ ok bytes
        → current_token lib ln now os disk ≡ err err_no_token
        → disk'
          ≡ put
              (if is_pending lib ln t then store_file_name_pending else store_file_name)
              bytes
              disk
        → Stored now os t disk disk'
    stored_paid :
        (bytes : Bytes) (c : Token lib)
        → serialize_token lib ln t ≡ ok bytes
        → current_token lib ln now os disk ≡ ok c
        → is_pending lib ln c ≡ true
        → is_pending lib ln t ≡ false
        → c.payment_hash ≡ t.payment_hash
        → disk' ≡ (remove_file os store_file_name_pending (put store_file_name bytes disk)).0
        → Stored now os t disk disk'

  write-eq-ok :
      (os : Faults) (name b : Bytes) (disk disk' : Disk)
      → write_file os name b disk ≡ (disk', ok tt)
      → disk' ≡ put name b disk
  unfolding write_file
  write-eq-ok os name b disk disk' e = ground (arith, Option-cases (os.write_fault name))

  store_over-ok :
      (now : ℤ) (os : Faults) (c t : Token lib) (b : Bytes) (disk disk' : Disk)
      → store_over lib ln os c t b disk ≡ (disk', ok tt)
      → serialize_token lib ln t ≡ ok b
      → current_token lib ln now os disk ≡ ok c
      → Stored now os t disk disk'
  unfolding store_over write_file
  store_over-ok now os c t b disk disk' e k held =
      let pending : is_pending lib ln c ≡ true = ground (arith, e) in
      let paid : is_pending lib ln t ≡ false = ground (arith, e) in
      let same : bytes_eq c.payment_hash t.payment_hash ≡ true = ground (arith, e) in
      stored_paid b c k held pending paid
        (ground (arith, same, bytes_eq_iff c.payment_hash t.payment_hash))
        (ground (arith, e, pending, paid, same, Option-cases (os.write_fault store_file_name)))

  -- StoreToken succeeds only by writing the first token of an empty store, to the file for its
  -- state, or by putting a paid token in the place of a pending one with the same payment hash.
  pub store_token-Stored :
      (now : ℤ) (os : Faults) (t : Token lib) (disk disk' : Disk)
      → store_token lib ln now os t disk ≡ (disk', ok tt)
      → Stored now os t disk disk'
  unfolding store_token store_first
  store_token-Stored now os t disk disk' e = elim (Result-cases (serialize_token lib ln t)) [
    | is_err f k ↦ absurd (ground (arith, k, e))
    | is_ok b k ↦ elim (Result-cases (current_token lib ln now os disk)) [
      | is_ok c held ↦ store_over-ok now os c t b disk disk' (ground (arith, e, k, held)) k held
      | is_err f held ↦ elim (Bool-cases (is_no_token f)) [
        | inl q ↦
            let none_yet : f ≡ err_no_token = is_no_token-eq f q in
            stored_first b k (held ∙ ap err none_yet) (
              write-eq-ok os
                (if is_pending lib ln t then store_file_name_pending else store_file_name) b disk
                disk' (ground (arith, e, k, held, q)))
        | inr q ↦ absurd (ground (arith, e, k, held, q))
      ]
    ]
  ]

  -- A paid token is never replaced: StoreToken fails, and the files are as they were.
  pub store_token-paid_kept :
      (now : ℤ) (os : Faults) (c t : Token lib) (disk : Disk)
      → current_token lib ln now os disk ≡ ok c
      → is_pending lib ln c ≡ false
      → ((store_token lib ln now os t disk).0 ≡ disk)
        × ((store_token lib ln now os t disk).1 ≢ ok tt)
  unfolding store_token store_over
  store_token-paid_kept now os c t disk held paid = elim (Result-cases (serialize_token lib ln t)) [
    | is_err f k ↦ (ground (arith, k), ground (arith, k))
    | is_ok b k ↦ (ground (arith, k, held, paid), ground (arith, k, held, paid))
  ]

  put_kept :
      (b : Bytes) (disk : Disk)
      → lookup store_file_name_pending (put store_file_name b disk)
        ≡ lookup store_file_name_pending disk
  unfolding bytes_eq
  put_kept b disk = lookup-put store_file_name store_file_name_pending b disk

  over_kept :
      (os : Faults) (c t : Token lib) (b : Bytes) (disk : Disk) (e : Error)
      → (store_over lib ln os c t b disk).1 ≡ err e
      → lookup store_file_name_pending (store_over lib ln os c t b disk).0
        ≡ lookup store_file_name_pending disk
  unfolding store_over write_file
  over_kept os c t b disk e h = elim (Option-cases (os.write_fault store_file_name)) [
    | inl fine ↦ ground (
      arith,
      fine,
      h,
      Bool-cases (is_pending lib ln c),
      Bool-cases (is_pending lib ln t),
      Bool-cases (bytes_eq c.payment_hash t.payment_hash),
    )
    | inr (w, broken) ↦ ground (
      arith,
      broken,
      put_kept w.1 disk,
      Bool-cases (is_pending lib ln c),
      Bool-cases (is_pending lib ln t),
      Bool-cases (bytes_eq c.payment_hash t.payment_hash),
    )
  ]

  -- While there is a token, a StoreToken that fails leaves the pending token's file as it was, also
  -- when the write of the new file fails in the middle.
  pub store_token-pending_kept :
      (now : ℤ) (os : Faults) (c t : Token lib) (disk : Disk) (e : Error)
      → current_token lib ln now os disk ≡ ok c
      → (store_token lib ln now os t disk).1 ≡ err e
      → lookup store_file_name_pending (store_token lib ln now os t disk).0
        ≡ lookup store_file_name_pending disk
  unfolding store_token
  store_token-pending_kept now os c t disk e held failed =
      elim (Result-cases (serialize_token lib ln t)) [
        | is_err f k ↦ ground (arith, k)
        | is_ok b k ↦
            let over : store_token lib ln now os t disk ≡ store_over lib ln os c t b disk =
              ground (arith, k, held) in
            rw over (over_kept os c t b disk e (sym (ap (λ x. x.1) over) ∙ failed))
      ]
