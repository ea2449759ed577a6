-- ===== src/L402/Satisfier.antt =====
-- l402/satisfier.go: the satisfiers of services, capabilities and timeouts.
pub mod Chain
pub mod Services
pub mod Capabilities
pub mod Timeout
use aperture.Prelude.{
  Bool, true, false, List, [], ◌∷◌, ◌++◌, map, if◌then◌else◌, Bytes, bytes_eq, contains, Result, ok,
  err, ◌>>=◌, ◌>>◌, guard, not, fail,
}
use aperture.Go.Strings.{split}
use aperture.Go.Strconv.{parse_int}
use aperture.Go.Time.{Time, time_unix, before}
use aperture.L402.Caveat.{Caveat, Satisfier}
use aperture.L402.Service.{
  Service, cond_services, cond_capabilities_suffix, cond_timeout_suffix,
  decode_services_caveat_value,
}

abbrev pub names : List Service → List Bytes
names = map λ s. s.name

-- The loop over the current entries: each one must be among those allowed before.
unfoldable pub none_new : List Bytes → List Bytes → Result (Unit {0})
none_new allowed [] = ok tt
none_new allowed (n ∷ ns) = do guard (contains allowed n) fail; none_new allowed ns

unfoldable pub services_previous : Caveat → Caveat → Result (Unit {0})
services_previous prev cur = do
  prev_services ← decode_services_caveat_value prev.value
  cur_services ← decode_services_caveat_value cur.value
  none_new (names prev_services) (names cur_services)

unfoldable pub services_final : Bytes → Caveat → Result (Unit {0})
services_final target c = do
  services ← decode_services_caveat_value c.value
  guard (contains (names services) target) fail

-- NewServicesSatisfier
abbrev pub new_services_satisfier : Bytes → Satisfier
new_services_satisfier target = record {
  condition = cond_services;
  satisfy_previous = services_previous;
  satisfy_final = services_final target;
}

unfoldable pub capabilities_previous : Caveat → Caveat → Result (Unit {0})
capabilities_previous prev cur = none_new (split b',' prev.value) (split b',' cur.value)

unfoldable pub capabilities_final : Bytes → Caveat → Result (Unit {0})
capabilities_final target c = guard (contains (split b',' c.value) target) fail

-- NewCapabilitiesSatisfier
abbrev pub new_capabilities_satisfier : Bytes → Bytes → Satisfier
new_capabilities_satisfier service target = record {
  condition = service ++ cond_capabilities_suffix;
  satisfy_previous = capabilities_previous;
  satisfy_final = capabilities_final target;
}

unfoldable pub timeout_previous : Caveat → Caveat → Result (Unit {0})
timeout_previous prev cur = do
  prev_value ← parse_int prev.value
  cur_value ← parse_int cur.value
  guard (not (before (time_unix prev_value) (time_unix cur_value))) fail

unfoldable pub timeout_final : Time → Caveat → Result (Unit {0})
timeout_final now c = do
  expiration ← parse_int c.value
  guard (before now (time_unix expiration)) fail

-- NewTimeoutSatisfier, with what `now()` returns when the last caveat is checked.
abbrev pub new_timeout_satisfier : Bytes → Time → Satisfier
new_timeout_satisfier service now = record {
  condition = service ++ cond_timeout_suffix;
  satisfy_previous = timeout_previous;
  satisfy_final = timeout_final now;
}
