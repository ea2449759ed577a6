-- ===== src/Tests/TokenRuns.antt =====
-- A token and a store on a disk without faults, and instances of the theorems about them.
use aperture.Prelude.{
  ◌≡◌, refl, Bytes, bytes_eq, codes, replicate, [], ◌∷◌, none, some, ok, err, pos, arith,
}
use aperture.Go.Maps.{lookup, put, delete}
use aperture.Go.Strings.{join}
use aperture.Go.Binary.{put_uint, read_uint, read_full}
use aperture.L402.Token.{
  Token, zero_preimage, is_pending, serialize_token, deserialize_token, token_from_challenge,
}
use aperture.L402.Token.Codec.{IsToken, deserialize-serialize_token}
use aperture.L402.FileStore.{
  Disk, Faults, store_file_name, store_file_name_pending, file_exists, read_file, read_token_file,
  write_file, remove_file, current_token, store_token, store_first, store_over,
}
use aperture.L402.FileStore.Steps.{CanRead}
use aperture.L402.FileStore.Current.{store-current_token}
use aperture.Tests.Macaroons.{toys, toys-IsMacaroonLib, toy_marshal, toy_unmarshal}
use aperture.Tests.RequestRuns.{toy_ln, toy_ln-IsLntypes, small, proof}

abbrev pending : Token toys
pending = record {
  payment_hash = proof;
  preimage = zero_preimage;
  amount_paid = 5;
  routing_fee_paid = 1;
  time_created = pos 9;
  base_mac = small;
}

abbrev paid : Token toys
paid = record pending { preimage = replicate 32 1 }

abbrev fine : Faults
fine = record {
  stat_fault = λ name. none;
  read_fault = λ name. none;
  write_fault = λ name. none;
  remove_fault = λ name. none;
  rename_fault = λ name. none;
}

fine-CanRead : CanRead fine
fine-CanRead = record { stats = λ name. refl; reads = λ name. refl }

paid-IsToken : IsToken paid
unfolding toy_marshal join
paid-IsToken = record {
  hash_size = refl;
  preimage_size = refl;
  amount = omega arith;
  fee = omega arith;
  time = omega arith;
  mac_size = λ b e. ground (arith, e);
}

abbrev text : Token toys → Bytes
text t = elim (serialize_token toys toy_ln t) [ ok b ↦ b | err e ↦ [] ]

disk_runs : Unit {0}
unfolding serialize_token deserialize_token token_from_challenge put_uint read_uint read_full lookup
    put delete bytes_eq is_pending file_exists read_file read_token_file write_file remove_file
    current_token store_token store_first store_over toy_marshal toy_unmarshal join
disk_runs = tt

deserialize-serialize_token_example : deserialize_token toys toy_ln (pos 0) (text paid) ≡ ok paid
unfolding disk_runs
deserialize-serialize_token_example =
    deserialize-serialize_token toys toy_ln toys-IsMacaroonLib toy_ln-IsLntypes (pos 0) paid
      (text paid) paid-IsToken refl

abbrev with_pending : Disk
with_pending = (store_file_name_pending, text pending) ∷ []

abbrev with_paid : Disk
with_paid = (store_file_name, text paid) ∷ []

-- A pending token is on the disk, and the paid one is stored.
store-current_token_example : current_token toys toy_ln (pos 1) fine with_paid ≡ ok paid
unfolding disk_runs
store-current_token_example =
    store-current_token toys toy_ln toys-IsMacaroonLib toy_ln-IsLntypes (pos 0) (pos 1) fine paid
      with_pending with_paid fine-CanRead paid-IsToken refl

-- The write of the paid token fails in the middle.
abbrev full : Faults
full = record fine { write_fault = λ name. some (28, codes "half") }
