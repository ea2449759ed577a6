-- ===== src/L402/FileStore/Current.antt =====
-- What CurrentToken of l402/store.go reads after StoreToken.
use aperture.Prelude.{
  bytes_eq_refl, ◌≡◌, refl, sym, ap, ◌∙◌, true, false, Bytes, bytes_eq, none, some, Option-cases,
  ok, err, err_no_token, ℤ, arith, inl, inr, Bool-cases,
}
use aperture.Go.Maps.{lookup, put, lookup-put, lookup-delete}
use aperture.L402.Macaroon.{MacaroonLib, IsMacaroonLib}
use aperture.L402.Lntypes.{Lntypes, IsLntypes}
use aperture.L402.Token.{Token, is_pending, deserialize_token}
use aperture.L402.Token.Codec.{IsToken, deserialize-serialize_token}
use aperture.L402.Token.Failed.{deserialize_token-ne}
use aperture.L402.FileStore.{
  Disk, Faults, store_file_name, store_file_name_pending, read_file, remove_file, file_exists,
  read_token_file, current_token, store_token,
}
use aperture.L402.FileStore.Steps.{CanRead, Stored, stored_first, stored_paid, store_token-Stored}

there :
    (os : Faults) (name b : Bytes) (disk : Disk)
    → CanRead os
    → lookup name disk ≡ some b
    → (file_exists os name disk ≡ true) × (read_file os name disk ≡ ok b)
unfolding file_exists read_file
there os name b disk r e = (ground (arith, r.stats name, e), ground (arith, r.reads name, e))

not_there :
    (os : Faults) (name : Bytes) (disk : Disk)
    → CanRead os
    → lookup name disk ≡ none
    → file_exists os name disk ≡ false
unfolding file_exists
not_there os name disk r e = ground (arith, r.stats name, e)

module _ (lib : MacaroonLib) (ln : Lntypes) where
  held_paid :
      (now : ℤ) (os : Faults) (disk : Disk) (b : Bytes)
      → CanRead os
      → lookup store_file_name disk ≡ some b
      → current_token lib ln now os disk ≡ deserialize_token lib ln now b
  unfolding current_token read_token_file
  held_paid now os disk b r e =
      let found = there os store_file_name b disk r e in rw (found.0, found.1) refl

  held_pending :
      (now : ℤ) (os : Faults) (disk : Disk) (b : Bytes)
      → CanRead os
      → lookup store_file_name disk ≡ none
      → lookup store_file_name_pending disk ≡ some b
      → current_token lib ln now os disk ≡ deserialize_token lib ln now b
  unfolding current_token read_token_file
  held_pending now os disk b r a e =
      let found = there os store_file_name_pending b disk r e in
      rw (not_there os store_file_name disk r a, found.0, found.1) refl

module _ (lib : MacaroonLib) (ln : Lntypes) (laws : IsMacaroonLib lib) (hex : IsLntypes ln) where
  no_paid :
      (now : ℤ) (os : Faults) (disk : Disk)
      → CanRead os
      → current_token lib ln now os disk ≡ err err_no_token
      → lookup store_file_name disk ≡ none
  no_paid now os disk r e = elim (Option-cases (lookup store_file_name disk)) [
    | inl a ↦ a
    | inr a ↦
        absurd (
          deserialize_token-ne lib ln hex now a.0
            (sym (held_paid lib ln now os disk a.0 r a.1) ∙ e))
  ]

  lookup-put_same : (name b : Bytes) (disk : Disk) → lookup name (put name b disk) ≡ some b
  lookup-put_same name b disk = ground (arith, lookup-put name name b disk, bytes_eq_refl name)

  pending_put :
      (b : Bytes) (disk : Disk)
      → lookup store_file_name (put store_file_name_pending b disk) ≡ lookup store_file_name disk
  unfolding bytes_eq
  pending_put b disk = lookup-put store_file_name_pending store_file_name b disk

  paid_remove :
      (os : Faults) (disk : Disk)
      → lookup store_file_name (remove_file os store_file_name_pending disk).0
        ≡ lookup store_file_name disk
  unfolding remove_file bytes_eq
  paid_remove os disk = ground (
    arith,
    lookup-delete store_file_name_pending store_file_name disk,
    Option-cases (os.remove_fault store_file_name_pending),
    Option-cases (lookup store_file_name_pending disk),
  )

  -- A token that StoreToken has stored is the one that CurrentToken returns, at any later time:
  -- whether it was the first token of the store or the paid one in place of the pending one, and
  -- also when the pending one could not be removed. The calls that look at files must not fail and
  -- the fields of the token have their sizes.
  pub store-current_token :
      (now later : ℤ) (os : Faults) (t : Token lib) (disk disk' : Disk)
      → CanRead os
      → IsToken t
      → store_token lib ln now os t disk ≡ (disk', ok tt)
      → current_token lib ln later os disk' ≡ ok t
  store-current_token now later os t disk disk' r h e =
      go (store_token-Stored lib ln now os t disk disk' e)
    where
      go : Stored lib ln now os t disk disk' → current_token lib ln later os disk' ≡ ok t
      go (stored_first b k held eq) =
          let back = deserialize-serialize_token lib ln laws hex later t b h k in
          elim (Bool-cases (is_pending lib ln t)) [
            | inl q ↦
                held_pending lib ln later os disk' b r
                  (ap (lookup store_file_name) (eq ∙ rw q refl)
                    ∙ (pending_put b disk ∙ no_paid now os disk r held))
                  (ap (lookup store_file_name_pending) (eq ∙ rw q refl)
                    ∙ lookup-put_same store_file_name_pending b disk)
                ∙ back
            | inr q ↦
                held_paid lib ln later os disk' b r (
                  ap (lookup store_file_name) (eq ∙ rw q refl)
                  ∙ lookup-put_same store_file_name b disk)
                ∙ back
          ]
      go (stored_paid b c k held p q same eq) =
          held_paid lib ln later os disk' b r (
            ap (lookup store_file_name) eq
            ∙ (paid_remove os (put store_file_name b disk)
                ∙ lookup-put_same store_file_name b disk))
          ∙ deserialize-serialize_token lib ln laws hex later t b h k
