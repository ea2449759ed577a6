-- ===== src/Limiter/Configured.antt =====
-- What services.go puts on the L402s of a configured service.
use mathlib.Core.List.{append-nil, append_assoc}
use aperture.Prelude.{
  ℕ, ◌+◌, ◌*◌, ◌^◌, ◌≤◌, ◌<◌, ◌≡◌, refl, sym, ap, ◌∙◌, true, List, [], ◌∷◌, ◌++◌, map, Bytes, codes,
  bytes_eq_refl, none, some, Bool-cases, inl, inr, arith, ltb_ℤ, pos, ◌+ℤ◌,
}
use aperture.Go.Time.{Time, seconds, saturated, add_duration}
use aperture.Go.Strconv.{format_int, format_uint}
use aperture.L402.Caveat.{Caveat}
use aperture.L402.Service.{Service, new_capabilities_caveat}
use aperture.Proxy.Backend.{ProxyService}
use aperture.Limiter.{
  unix, new_timeout_caveat, service_eq, lookup_service, put_service, or_nil, StaticServiceLimiter,
  key_of, add_constraints, add_service, add_services, new_static_service_limiter, caveats_of,
  constraints_of,
}
use aperture.Limiter.Restricted.{AreOther, services_kept}

service_eq_refl : (s : Service) → service_eq s s ≡ true
unfolding service_eq
service_eq_refl s = ground (arith, bytes_eq_refl s.name)

module _ {V : Type 0} where
  lookup-put_self :
      (k : Service) (v : V) (m : List (Service × V)) → lookup_service k (put_service k v m) ≡ some v
  unfolding lookup_service put_service
  lookup-put_self k v [] = rw (service_eq_refl k) refl
  lookup-put_self k v ((j, w) ∷ m) = elim (Bool-cases (service_eq j k)) [
    | inl same ↦ rw (same, same) refl
    | inr other ↦ rw (other, other, lookup-put_self k v m) refl
  ]

abbrev pub caveat_of : Bytes × Bytes → Caveat
caveat_of c = record { condition = c.0; value = c.1 }

-- The constraints of a service are added to those that it has.
add_constraints-map :
    (s : Service) (fields : List (Bytes × Bytes)) (m : List (Service × List Caveat))
    → or_nil (lookup_service s (add_constraints s fields m))
      ≡ or_nil (lookup_service s m) ++ map caveat_of fields
unfolding add_constraints
add_constraints-map s [] m = sym (append-nil (or_nil (lookup_service s m)))
add_constraints-map s ((cond, value) ∷ fields) m =
    let had = or_nil (lookup_service s m) in
    let c : Caveat = record { condition = cond; value = value } in
    add_constraints-map s fields (put_service s (had ++ c ∷ []) m)
    ∙ (ap (λ o. or_nil o ++ map caveat_of fields) (lookup-put_self s (had ++ c ∷ []) m)
        ∙ append_assoc had (c ∷ []) (map caveat_of fields))

caveats_of-one :
    (k : Service) (c : Caveat) (m : List (Service × Caveat))
    → lookup_service k m ≡ some c
    → caveats_of m (k ∷ []) ≡ c ∷ []
unfolding caveats_of
caveats_of-one k c m h = ground (arith, h)

-- In the range of int64, the seconds add up.
new_timeout_caveat-unix :
    (name : Bytes) (u t n : ℕ)
    → n < 1000000000
    → t * 1000000000 < 2 ^ 63
    → 62135596800 + u + t < 2 ^ 63
    → new_timeout_caveat name (pos t) (record { sec = pos (62135596800 + u); nsec = n })
      ≡ record { condition = name ++ codes "_valid_until"; value = format_uint (u + t) }
unfolding new_timeout_caveat seconds add_duration unix saturated ◌+ℤ◌ format_int
new_timeout_caveat-unix name u t n h k b = ground arith

module _ {D : Type 0} where
  add_services-append :
      (start : Time) (ps qs : List (ProxyService D)) (l : StaticServiceLimiter)
      → add_services start (ps ++ qs) l ≡ add_services start qs (add_services start ps l)
  unfolding add_services
  add_services-append start [] qs l = refl
  add_services-append start (p ∷ ps) qs l = add_services-append start ps qs (add_service start p l)

  -- What the limiters say of a service right after its round.
  round-lookup :
      (start : Time) (p : ProxyService D) (l : StaticServiceLimiter)
      → ltb_ℤ (pos 0) p.timeout ≡ true
      → lookup_service (key_of p) l.constraints ≡ none
      → (lookup_service (key_of p) (add_service start p l).capabilities
          ≡ some (new_capabilities_caveat p.name p.capabilities))
        × (or_nil (lookup_service (key_of p) (add_service start p l).constraints)
            ≡ map caveat_of p.constraints)
        × (lookup_service (key_of p) (add_service start p l).timeouts
            ≡ some (new_timeout_caveat p.name p.timeout start))
  unfolding add_service
  round-lookup start p l t n = (
    lookup-put_self (key_of p) _ l.capabilities,
    add_constraints-map (key_of p) p.constraints l.constraints
        ∙ ap (λ o. or_nil o ++ map caveat_of p.constraints) n,
    rw t (lookup-put_self (key_of p) _ l.timeouts),
  )

  -- For a configured service that no other one equals in name and price, and whose timeout is set,
  -- the limiter gives the caveat of its capabilities, its constraints, all of them in their order,
  -- and a timeout at the Unix time of the start of the limiter plus the configured seconds. The
  -- start is not before 1970, its nanoseconds are below a second, and the times fit in an int64.
  pub limiter-configured :
      (ps qs : List (ProxyService D)) (p : ProxyService D) (u t n : ℕ)
      → AreOther (key_of p) ps
      → AreOther (key_of p) qs
      → p.timeout ≡ pos t
      → 1 ≤ t
      → n < 1000000000
      → t * 1000000000 < 2 ^ 63
      → 62135596800 + u + t < 2 ^ 63
      → let l =
          new_static_service_limiter
            (record { sec = pos (62135596800 + u); nsec = n })
            (ps ++ p ∷ qs) in
        (caveats_of l.capabilities (key_of p ∷ [])
          ≡ record { condition = p.name ++ codes "_capabilities"; value = p.capabilities } ∷ [])
        × (constraints_of l.constraints (key_of p ∷ []) ≡ map caveat_of p.constraints)
        × (caveats_of l.timeouts (key_of p ∷ [])
            ≡ record { condition = p.name ++ codes "_valid_until"; value = format_uint (u + t) }
              ∷ [])
  unfolding new_static_service_limiter add_services constraints_of lookup_service
      new_capabilities_caveat
  limiter-configured ps qs p u t n before after timed some_time h k b =
      let start : Time = record { sec = pos (62135596800 + u); nsec = n } in
      let empty : StaticServiceLimiter = record {
        capabilities = [];
        constraints = [];
        timeouts = [];
      } in
      let l₁ : StaticServiceLimiter = add_services start ps empty in
      let l₂ : StaticServiceLimiter = add_service start p l₁ in
      let (a₁, b₁, c₁) = services_kept start ps (key_of p) empty before in
      let (a₂, b₂, c₂) = services_kept start qs (key_of p) l₂ after in
      let (a, c, d) = round-lookup start p l₁ (ground (arith, timed, some_time)) b₁ in
      let all : add_services start (ps ++ p ∷ qs) empty ≡ add_services start qs l₂ =
        add_services-append start ps (p ∷ qs) empty in
      let value = new_timeout_caveat-unix p.name u t n h k b in
      (
        ap (λ l. caveats_of l.capabilities (key_of p ∷ [])) all
            ∙ caveats_of-one (key_of p) _ _ (a₂ ∙ a),
        rw (all, b₂, c) (append-nil (map caveat_of p.constraints)),
        ap (λ l. caveats_of l.timeouts (key_of p ∷ [])) all
            ∙ caveats_of-one (key_of p) _ _
                (c₂ ∙ (d ∙ ap some (ap (λ z. new_timeout_caveat p.name z start) timed ∙ value))),
      )
