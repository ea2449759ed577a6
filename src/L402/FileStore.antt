-- ===== src/L402/FileStore.antt =====
-- l402/store.go: the file store. A disk is the directory's files by name; a call of the operating
-- system fails where the faults say so.
pub mod Steps
pub mod Current
use aperture.Prelude.{
  ℕ, Bool, true, false, not, ◌&&◌, List, [], ◌∷◌, Bytes, bytes_eq, codes, if◌then◌else◌, Option,
  none, some, Result, ok, err, Error, external, fail, err_no_token, err_no_replace, ℤ, ◌>>=◌,
  or_err,
}
use aperture.Go.Maps.{lookup, put, delete}
use aperture.Go.Strings.{has_prefix}
use aperture.L402.Macaroon.{MacaroonLib}
use aperture.L402.Lntypes.{Lntypes}
use aperture.L402.Token.{Token, is_pending, serialize_token, deserialize_token}

abbrev pub Disk : Type 0
Disk = List (Bytes × Bytes)

-- The errors of the operating system, by the name of the file. A write that fails leaves what it
-- says in the file.
pub record Faults : Type 0 where
  pub stat_fault : Bytes → Option ℕ
  pub read_fault : Bytes → Option ℕ
  pub write_fault : Bytes → Option (ℕ × Bytes)
  pub remove_fault : Bytes → Option ℕ
  pub rename_fault : Bytes → Option ℕ

abbrev pub store_file_name : Bytes
store_file_name = codes "l402.token"

abbrev pub store_file_name_pending : Bytes
store_file_name_pending = codes "l402.token.pending"

-- err == ErrNoToken
abbrev pub is_no_token : Error → Bool
is_no_token err_no_token = true
is_no_token _ = false

-- os.ReadFile
unfoldable pub read_file : Faults → Bytes → Disk → Result Bytes
read_file os name disk = elim (os.read_fault name) [
  | some e ↦ err (external e)
  | none ↦ or_err (lookup name disk) fail
]

-- os.WriteFile
unfoldable pub write_file : Faults → Bytes → Bytes → Disk → Disk × Result (Unit {0})
write_file os name contents disk = elim (os.write_fault name) [
  | some (e, left_over) ↦ (put name left_over disk, err (external e))
  | none ↦ (put name contents disk, ok tt)
]

-- os.Remove
unfoldable pub remove_file : Faults → Bytes → Disk → Disk × Result (Unit {0})
remove_file os name disk = elim (os.remove_fault name) [
  | some e ↦ (disk, err (external e))
  | none ↦ elim (lookup name disk) [ none ↦ (disk, err fail) | some b ↦ (delete name disk, ok tt) ]
]

-- fileExists: only an error that says that there is no such file means false.
unfoldable pub file_exists : Faults → Bytes → Disk → Bool
file_exists os name disk = elim (os.stat_fault name) [
  | some e ↦ true
  | none ↦ elim (lookup name disk) [ none ↦ false | some b ↦ true ]
]

-- One round of the loop of NewFileStore over the renames.
unfoldable pub rename_old : Faults → Bytes → Bytes → Disk → Result Disk
unfolding file_exists
rename_old os old new disk = if file_exists os new disk then ok disk else elim (os.stat_fault old) [
  | some e ↦ ok disk
  | none ↦ elim (lookup old disk) [
    | none ↦ ok disk
    | some b ↦ elim (os.rename_fault old) [
      | some e ↦ err fail
      | none ↦ ok (put new b (delete old disk))
    ]
  ]
]

-- NewFileStore in a directory that is there.
unfoldable pub new_file_store : Faults → Disk → Result Disk
unfolding rename_old
new_file_store os disk = do
  disk' ← rename_old os (codes "lsat.token") store_file_name disk
  rename_old os (codes "lsat.token.pending") store_file_name_pending disk'

-- RemovePendingToken
unfoldable pub remove_pending_token : Faults → Disk → Disk × Result (Unit {0})
unfolding file_exists remove_file
remove_pending_token os disk =
    if file_exists os store_file_name_pending disk
    then remove_file os store_file_name_pending disk
    else (disk, err err_no_token)

module _ (lib : MacaroonLib) (ln : Lntypes) where
  -- readTokenFile
  unfoldable pub read_token_file : ℤ → Faults → Bytes → Disk → Result (Token lib)
  unfolding read_file
  read_token_file now os name disk = read_file os name disk >>= deserialize_token lib ln now

  -- currentToken
  unfoldable pub current_token : ℤ → Faults → Disk → Result (Token lib)
  unfolding read_token_file file_exists
  current_token now os disk =
      if file_exists os store_file_name disk
      then read_token_file now os store_file_name disk
      else if file_exists os store_file_name_pending disk
      then read_token_file now os store_file_name_pending disk
      else err err_no_token

  -- The loop of AllTokens over the names that os.ReadDir returned.
  unfoldable pub all_tokens :
      ℤ → Faults → List Bytes → Disk → List (Bytes × Token lib) → Result (List (Bytes × Token lib))
  unfolding read_token_file
  all_tokens now os [] disk tokens = ok tokens
  all_tokens now os (name ∷ names) disk tokens =
      let read =
        read_token_file now os name disk
        >>= (λ token. all_tokens now os names disk (put name token tokens)) in
      let skip = all_tokens now os names disk tokens in
      if has_prefix name store_file_name then read else skip

  -- The first case of StoreToken: there is no token.
  unfoldable pub store_first : Faults → Token lib → Bytes → Disk → Disk × Result (Unit {0})
  unfolding write_file
  store_first os t bytes disk =
      write_file os (if is_pending lib ln t then store_file_name_pending else store_file_name) bytes
        disk

  -- Its last two cases: there is a token.
  unfoldable pub store_over :
      Faults → Token lib → Token lib → Bytes → Disk → Disk × Result (Unit {0})
  unfolding write_file remove_file
  store_over os current t bytes disk =
      if is_pending lib ln current && not (is_pending lib ln t)
      then (if bytes_eq current.payment_hash t.payment_hash
          then (let (disk', written) = write_file os store_file_name bytes disk in
              elim written [
                | err e ↦ (disk', err e)
                | ok u ↦ ((remove_file os store_file_name_pending disk').0, ok tt)
              ])
          else (disk, err fail))
      else (disk, err err_no_replace)

  -- StoreToken
  unfoldable pub store_token : ℤ → Faults → Token lib → Disk → Disk × Result (Unit {0})
  unfolding current_token store_first store_over
  store_token now os t disk = elim (serialize_token lib ln t) [
    | err e ↦ (disk, err e)
    | ok bytes ↦ elim (current_token now os disk) [
      | ok current ↦ store_over os current t bytes disk
      | err e ↦ if is_no_token e then store_first os t bytes disk else (disk, err e)
    ]
  ]
