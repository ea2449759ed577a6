-- ===== src/Tests/LimiterRuns.antt =====
-- The limiter of one service, and instances of the theorems about it.
use aperture.Prelude.{◌≡◌, refl, bytes_eq, codes, [], ◌∷◌, pos, arith, ◌+ℤ◌}
use aperture.Go.Time.{Time}
use aperture.Go.Strconv.{format_int, format_uint}
use aperture.Freebie.{MemStore}
use aperture.L402.Service.{Service}
use aperture.Proxy.Backend.{ProxyService}
use aperture.Go.Time.{seconds, saturated, add_duration}
use aperture.Limiter.{
  new_timeout_caveat, new_static_service_limiter, caveats_of, constraints_of, service_eq, key_of,
  lookup_service, put_service, add_services, add_service, add_constraints, unix,
}
use aperture.Limiter.Restricted.{limiter-unrestricted}
use aperture.Limiter.Configured.{limiter-configured}
use aperture.Tests.ProxyRuns.{loop}

abbrev start : Time
start = record { sec = pos 62135597000; nsec = 5 }

abbrev timed : ProxyService MemStore
timed = record loop { timeout = pos 100; constraints = (codes "loop_volume", codes "7") ∷ [] }

-- The key of the challenge, after a price of zero has become the default price.
abbrev asked : Service
asked = record { name = codes "loop"; tier = 0; price = pos 1 }

limiter_runs : Unit {0}
unfolding new_static_service_limiter caveats_of constraints_of service_eq lookup_service put_service
    add_services add_service add_constraints bytes_eq new_timeout_caveat seconds saturated
    add_duration unix format_int format_uint ◌+ℤ◌
limiter_runs = tt

timed_value : (new_timeout_caveat (codes "loop") (pos 100) start).value ≡ codes "300"
unfolding limiter_runs
timed_value = refl

limiter-unrestricted_example :
    (caveats_of (new_static_service_limiter start (timed ∷ [])).capabilities (asked ∷ []) ≡ [])
    × (constraints_of (new_static_service_limiter start (timed ∷ [])).constraints (asked ∷ []) ≡ [])
    × (caveats_of (new_static_service_limiter start (timed ∷ [])).timeouts (asked ∷ []) ≡ [])
unfolding limiter_runs
limiter-unrestricted_example = limiter-unrestricted start (timed ∷ []) asked (refl, tt)

abbrev other : ProxyService MemStore
other = record timed { name = codes "other" }

limiter-configured_example :
    (caveats_of
        (new_static_service_limiter start (other ∷ timed ∷ [])).capabilities
        (key_of timed ∷ [])
      ≡ record { condition = codes "loop_capabilities"; value = [] } ∷ [])
    × (constraints_of
          (new_static_service_limiter start (other ∷ timed ∷ [])).constraints
          (key_of timed ∷ [])
        ≡ record { condition = codes "loop_volume"; value = codes "7" } ∷ [])
    × (caveats_of
          (new_static_service_limiter start (other ∷ timed ∷ [])).timeouts
          (key_of timed ∷ [])
        ≡ record { condition = codes "loop_valid_until"; value = codes "300" } ∷ [])
unfolding limiter_runs
limiter-configured_example =
    limiter-configured (other ∷ []) [] timed 200 100 5 (refl, tt) tt refl (omega arith)
      (omega arith) (omega arith) (omega arith)
