-- ===== src/Limiter.antt =====
-- services.go, with NewTimeoutCaveat of l402/service.go: the restrictions of the configured
-- services, made when the limiter is. A map keyed by services is a list of pairs.
pub mod Restricted
pub mod Configured
use aperture.Prelude.{
  ℕ, suc, zero, ◌+◌, ◌-◌, ◌*◌, ◌/◌, ◌%◌, ◌^◌, Bool, true, false, ◌&&◌, List, [], ◌∷◌, ◌++◌,
  if◌then◌else◌, Bytes, bytes_eq, Option, none, some, Result, ok, ltb, leb, ◌==◌, ℤ, pos, negsuc,
  pos_part, neg_part, ◌+ℤ◌, ltb_ℤ,
}
use aperture.Go.Strconv.{format_int}
use aperture.Go.Time.{Time, wrap_int64, seconds, add_duration}
use aperture.L402.Caveat.{Caveat}
use aperture.L402.Service.{Service, base_tier, cond_timeout_suffix, new_capabilities_caveat}
use aperture.Mint.{ServiceLimiter}
use aperture.Proxy.Backend.{ProxyService}

-- t.Unix()
unfoldable pub unix : Time → ℤ
unfolding ◌+ℤ◌
unix t = wrap_int64 (t.sec +ℤ negsuc 62135596799)

-- NewTimeoutCaveat, given what now() returns
unfoldable pub new_timeout_caveat : Bytes → ℤ → Time → Caveat
unfolding seconds add_duration unix
new_timeout_caveat service_name num_seconds now = record {
  condition = service_name ++ cond_timeout_suffix;
  value = format_int (unix (add_duration now (seconds num_seconds)));
}

-- The equality of keys: all three fields of a service, the price too.
unfoldable pub service_eq : Service → Service → Bool
service_eq s t =
    bytes_eq s.name t.name
    && (s.tier == t.tier
        && (pos_part s.price == pos_part t.price && neg_part s.price == neg_part t.price))

module _ {V : Type 0} where
  unfoldable pub lookup_service : Service → List (Service × V) → Option V
  lookup_service k [] = none
  lookup_service k ((j, v) ∷ m) = if service_eq j k then some v else lookup_service k m

  unfoldable pub put_service : Service → V → List (Service × V) → List (Service × V)
  put_service k v [] = (k, v) ∷ []
  put_service k v ((j, w) ∷ m) = if service_eq j k then (j, v) ∷ m else (j, w) ∷ put_service k v m

-- staticServiceLimiter
pub record StaticServiceLimiter : Type 0 where
  pub capabilities : List (Service × Caveat)
  pub constraints : List (Service × List Caveat)
  pub timeouts : List (Service × Caveat)

-- The key of a configured service
abbrev pub key_of : {D : Type 0} → ProxyService D → Service
key_of s = record { name = s.name; tier = base_tier; price = s.price }

abbrev pub or_nil : Option (List Caveat) → List Caveat
or_nil none = []
or_nil (some cs) = cs

-- The loop over the constraints of one service
unfoldable pub add_constraints :
    Service → List (Bytes × Bytes) → List (Service × List Caveat) → List (Service × List Caveat)
unfolding lookup_service put_service
add_constraints s [] m = m
add_constraints s ((cond, value) ∷ rest) m = add_constraints s rest (
    put_service s (or_nil (lookup_service s m) ++ record { condition = cond; value = value } ∷ [])
      m)

-- One round of newStaticServiceLimiter
unfoldable pub add_service :
    {D : Type 0} → Time → ProxyService D → StaticServiceLimiter → StaticServiceLimiter
unfolding add_constraints put_service new_timeout_caveat new_capabilities_caveat
add_service now p l = record {
  capabilities =
      put_service (key_of p) (new_capabilities_caveat p.name p.capabilities) l.capabilities;
  constraints = add_constraints (key_of p) p.constraints l.constraints;
  timeouts =
      if ltb_ℤ (pos 0) p.timeout
      then put_service (key_of p) (new_timeout_caveat p.name p.timeout now) l.timeouts
      else l.timeouts;
}

unfoldable pub add_services :
    {D : Type 0} → Time → List (ProxyService D) → StaticServiceLimiter → StaticServiceLimiter
unfolding add_service
add_services now [] l = l
add_services now (p ∷ ps) l = add_services now ps (add_service now p l)

-- newStaticServiceLimiter, at the time `now`
unfoldable pub new_static_service_limiter :
    {D : Type 0} → Time → List (ProxyService D) → StaticServiceLimiter
unfolding add_services
new_static_service_limiter now ps =
    add_services now ps (record { capabilities = []; constraints = []; timeouts = [] })

-- The loop of ServiceCapabilities and ServiceTimeouts
unfoldable pub caveats_of : List (Service × Caveat) → List Service → List Caveat
unfolding lookup_service
caveats_of m [] = []
caveats_of m (s ∷ ss) =
    let rest = caveats_of m ss in elim (lookup_service s m) [ none ↦ rest | some c ↦ c ∷ rest ]

-- The loop of ServiceConstraints
unfoldable pub constraints_of : List (Service × List Caveat) → List Service → List Caveat
unfolding lookup_service
constraints_of m [] = []
constraints_of m (s ∷ ss) = or_nil (lookup_service s m) ++ constraints_of m ss

-- The static limiter as the mint's service limiter
abbrev pub limiter_of : StaticServiceLimiter → ServiceLimiter
limiter_of l = record {
  service_capabilities = λ ss. ok (caveats_of l.capabilities ss);
  service_constraints = λ ss. ok (constraints_of l.constraints ss);
  service_timeouts = λ ss. ok (caveats_of l.timeouts ss);
}
