-- ===== src/L402/Service.antt =====
-- l402/service.go: services and their caveats.
pub mod Codec
use aperture.Prelude.{
  ℕ, ◌+◌, ◌≡◌, Bool, true, false, List, [], ◌∷◌, ◌++◌, if◌then◌else◌, Bytes, bytes_eq, codes,
  Result, ok, err, ◌>>=◌, ◌>>◌, guard, err_no_services, err_invalid_service, fail, ℤ, pos, to_uint8,
  not,
}
use aperture.Go.Strings.{split}
use aperture.Go.Strconv.{format_uint, parse_int}
use aperture.L402.Caveat.{Caveat}

-- `tier` is a uint8 and `price` an int64 of satoshis.
pub record Service : Type 0 where
  pub name : Bytes
  pub tier : ℕ
  pub price : ℤ

-- CondServices, CondCapabilitiesSuffix and CondTimeoutSuffix
abbrev pub cond_services : Bytes
cond_services = codes "services"

abbrev pub cond_capabilities_suffix : Bytes
cond_capabilities_suffix = codes "_capabilities"

abbrev pub cond_timeout_suffix : Bytes
cond_timeout_suffix = codes "_valid_until"

-- BaseTier
abbrev pub base_tier : ℕ
base_tier = 0

-- fmt.Fprintf(&s, "%v:%v", service.Name, uint8(service.Tier))
unfoldable pub service_entry : Service → Bytes
service_entry s = s.name ++ b':' ∷ format_uint s.tier

-- The printing loop; a comma follows each entry but the last.
unfoldable pub write_services : List Service → Result Bytes
unfolding service_entry
write_services [] = ok []
write_services (s ∷ []) = do guard (not (bytes_eq s.name [])) fail; ok (service_entry s)
write_services (s ∷ t ∷ rest) = do
  guard (not (bytes_eq s.name [])) fail
  text ← write_services (t ∷ rest)
  ok (service_entry s ++ b',' ∷ text)

unfoldable pub encode_services_caveat_value : List Service → Result Bytes
unfolding write_services
encode_services_caveat_value [] = err err_no_services
encode_services_caveat_value (s ∷ ss) = write_services (s ∷ ss)

-- The parts of one entry; an error of Atoi is wrapped in ErrInvalidService.
unfoldable pub service_of_parts : List Bytes → Result Service
service_of_parts (name ∷ tier ∷ []) = do
  guard (not (bytes_eq name [])) err_invalid_service
  elim (parse_int tier) [
    | err e ↦ err err_invalid_service
    | ok n ↦ ok (record { name = name; tier = to_uint8 n; price = pos 0 })
  ]
service_of_parts _ = err err_invalid_service

unfoldable pub read_services : List Bytes → Result (List Service)
unfolding service_of_parts
read_services [] = ok []
read_services (raw ∷ raws) = do
  s ← service_of_parts (split b':' raw)
  ss ← read_services raws
  ok (s ∷ ss)

unfoldable pub decode_services_caveat_value : Bytes → Result (List Service)
unfolding read_services
decode_services_caveat_value [] = err err_no_services
decode_services_caveat_value (c ∷ s) = read_services (split b',' (c ∷ s))

unfoldable pub new_services_caveat : List Service → Result Caveat
unfolding encode_services_caveat_value
new_services_caveat services = do
  value ← encode_services_caveat_value services
  ok (record { condition = cond_services; value = value })

unfoldable pub new_capabilities_caveat : Bytes → Bytes → Caveat
new_capabilities_caveat service capabilities = record {
  condition = service ++ cond_capabilities_suffix;
  value = capabilities;
}
