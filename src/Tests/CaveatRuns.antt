-- ===== src/Tests/CaveatRuns.antt =====
-- Runs of caveats, services and satisfiers.
use mathlib.Core.List.Perm
use aperture.Prelude.{
  replicate, contains, fail, ℕ, ◌≡◌, refl, ◌↔◌, List, [], ◌∷◌, ◌++◌, All, Lacks, Bytes, codes, ok,
  err, err_invalid_caveat, pos, bytes_eq, arith,
}
use aperture.Go.Strings.{split, split_n2}
use aperture.Go.Strconv.{parse_int, signed, format_uint}
use aperture.Go.Binary.{read_uint, read_some, put_uint}
use aperture.Go.Maps.{lookup, put}
use aperture.Go.Time.{before, Time, time_unix}
use aperture.L402.Caveat.{Caveat, encode_caveat, decode_caveat, preimage_key, verify_caveats}
use aperture.L402.Caveat.Codec.{decode-encode, decode-eq-err_iff}
use aperture.L402.Caveat.Grouping.{IsAuthorized, Attenuates}
use aperture.L402.Caveat.Authorized.{verify_caveats_iff}
use aperture.L402.Service.{
  service_entry, Service, encode_services_caveat_value, decode_services_caveat_value, cond_services,
}
use aperture.L402.Service.Codec.{IsPlain, unpriced, decode-encode_fused, fused}
use aperture.L402.Satisfier.{
  services_previous, services_final, capabilities_previous, capabilities_final, timeout_previous,
  timeout_final, none_new, new_services_satisfier,
}
use aperture.L402.Identifier.{Identifier, encode_identifier, decode_identifier}
use aperture.L402.Identifier.Codec.{decode_short}
use aperture.Tests.Macaroons.{Toy}

abbrev caveat : Caveat
caveat = record { condition = codes "a"; value = codes "b=c" }

decode-encode_example : decode_caveat (encode_caveat caveat) ≡ ok caveat
decode-encode_example = decode-encode caveat (omega arith)

decode-eq-err_iff_example :
    (decode_caveat (codes "ab") ≡ err err_invalid_caveat) ↔ Lacks b'=' (codes "ab")
decode-eq-err_iff_example = decode-eq-err_iff (codes "ab")

abbrev paid : Caveat
paid = record { condition = preimage_key; value = codes "00" }

abbrev bare_toy : Toy
bare_toy = record { key = []; id = []; caveats = codes "preimage=ff" ∷ [] }

abbrev wide : Caveat
wide = record { condition = cond_services; value = codes "loop:0,pool:0" }

abbrev narrow : Caveat
narrow = record { condition = cond_services; value = codes "loop:0" }

abbrev loop : Bytes
loop = codes "loop"

verify_caveats_iff_example :
    (verify_caveats (λ m. m) (wide ∷ narrow ∷ []) (new_services_satisfier loop ∷ []) ≡ ok tt)
    ↔ IsAuthorized (new_services_satisfier loop ∷ []) (wide ∷ narrow ∷ [])
verify_caveats_iff_example =
    verify_caveats_iff (λ m. m) (λ m. Perm.refl m) (wide ∷ narrow ∷ [])
      (new_services_satisfier loop ∷ [])

-- Whatever the runs compute with.
runs : Unit {0}
unfolding services_previous services_final capabilities_previous capabilities_final timeout_previous
    timeout_final none_new decode_services_caveat_value encode_services_caveat_value split parse_int
    signed contains bytes_eq time_unix before encode_identifier decode_identifier read_uint
    read_some put_uint split_n2 decode_caveat format_uint service_entry
runs = tt

abbrev chain : List Caveat
chain = wide ∷ narrow ∷ []

chain-Attenuates : Attenuates (new_services_satisfier loop) chain
unfolding runs
chain-Attenuates = (refl, refl)

-- A chain that widens is refused.
widening :
    verify_caveats (λ m. m) (narrow ∷ wide ∷ []) (new_services_satisfier loop ∷ []) ≡ err fail
unfolding runs verify_caveats lookup put
widening = refl

abbrev until : Bytes → Caveat
until v = record { condition = codes "loop_valid_until"; value = v }

abbrev at_noon : Time
at_noon = record { sec = pos 62135598000; nsec = 0 }

abbrev timeouts : List Caveat
timeouts = until (codes "2000") ∷ until (codes "1500") ∷ []

abbrev capability : Bytes → Caveat
capability v = record { condition = codes "loop_capabilities"; value = v }

abbrev capability_chain : List Caveat
capability_chain = capability (codes "in,out") ∷ capability (codes "out") ∷ []

abbrev service : Bytes → ℕ → Service
service name tier = record { name = name; tier = tier; price = pos 5 }

abbrev loop_and_pool : List Service
loop_and_pool = service loop 0 ∷ service (codes "pool") 7 ∷ []

loop_and_pool-IsPlain : All IsPlain loop_and_pool
loop_and_pool-IsPlain = omega arith

decode-encode_fused_example :
    (v : Bytes) × (encode_services_caveat_value
        (fused (service loop 0) (service (codes "pool") 7) ∷ [])
      ≡ ok v)
    × (decode_services_caveat_value v
        ≡ ok (unpriced (service loop 0) ∷ unpriced (service (codes "pool") 7) ∷ []))
decode-encode_fused_example =
    decode-encode_fused (service loop 0) (service (codes "pool") 7) (λ e. cc) (λ e. cc)
      (omega arith) (omega arith)

abbrev identifier : Identifier
identifier = record { version = 0; payment_hash = replicate 32 9; token_id = replicate 32 4 }

decode_short_example :
    decode_identifier (put_uint 2 0 ++ (replicate 32 9 ++ 1 ∷ []))
    ≡ ok (record { version = 0; payment_hash = replicate 32 9; token_id = 1 ∷ replicate 31 0 })
decode_short_example = decode_short (replicate 32 9) (1 ∷ []) refl (λ e. cc) (omega arith)
