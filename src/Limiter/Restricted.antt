-- ===== src/Limiter/Restricted.antt =====
-- Which restrictions services.go puts on a service.
use aperture.Prelude.{
  ◌≡◌, refl, ap, ◌∙◌, true, false, List, [], ◌∷◌, Bytes, bytes_eq_iff, Bool-cases, inl, inr, arith,
  ltb_ℤ, ℤ, pos, negsuc, pos_part, neg_part, All,
}
use aperture.Go.Time.{Time}
use aperture.L402.Caveat.{Caveat}
use aperture.L402.Service.{Service}
use aperture.Proxy.Backend.{ProxyService}
use aperture.Limiter.{
  service_eq, lookup_service, put_service, StaticServiceLimiter, key_of, add_constraints,
  add_service, add_services, new_static_service_limiter, caveats_of, constraints_of,
}

parts-eq : (a b : ℤ) → pos_part a ≡ pos_part b → neg_part a ≡ neg_part b → a ≡ b
parts-eq (pos m) (pos n) h k = ap pos h
parts-eq (pos m) (negsuc n) h k = absurd (omega arith)
parts-eq (negsuc m) (pos n) h k = absurd (omega arith)
parts-eq (negsuc m) (negsuc n) h k = ap negsuc (omega arith)

service_eq-eq : (s t : Service) → service_eq s t ≡ true → s ≡ t
unfolding service_eq
service_eq-eq s t h =
    let names : s.name ≡ t.name = ground (arith, h, bytes_eq_iff s.name t.name) in
    let tiers : s.tier ≡ t.tier = ground (arith, h) in
    let prices : s.price ≡ t.price =
      parts-eq s.price t.price (ground (arith, h)) (ground (arith, h)) in
    cc (names, tiers, prices)

module _ {V : Type 0} where
  lookup-put_service :
      (k j : Service) (v : V) (m : List (Service × V))
      → service_eq k j ≡ false
      → lookup_service j (put_service k v m) ≡ lookup_service j m
  unfolding lookup_service put_service
  lookup-put_service k j v [] h = rw h refl
  lookup-put_service k j v ((i, w) ∷ m) h = elim (Bool-cases (service_eq i k)) [
    | inl same ↦
        let moved : service_eq i j ≡ false =
          ap (λ x. service_eq x j) (service_eq-eq i k same) ∙ h in
        ground (arith, same, moved)
    | inr other ↦ ground (arith, other, lookup-put_service k j v m h)
  ]

constraints_kept :
    (s k : Service) (fields : List (Bytes × Bytes)) (m : List (Service × List Caveat))
    → service_eq s k ≡ false
    → lookup_service k (add_constraints s fields m) ≡ lookup_service k m
unfolding add_constraints
constraints_kept s k [] m h = refl
constraints_kept s k ((cond, value) ∷ fields) m h =
    constraints_kept s k fields _ h ∙ lookup-put_service s k _ m h

module _ {D : Type 0} where
  timeouts_kept :
      (start : Time) (p : ProxyService D) (k : Service) (l : StaticServiceLimiter)
      → service_eq (key_of p) k ≡ false
      → lookup_service k (add_service start p l).timeouts ≡ lookup_service k l.timeouts
  unfolding add_service
  timeouts_kept start p k l h = elim (Bool-cases (ltb_ℤ (pos 0) p.timeout)) [
    | inl t ↦ rw t (lookup-put_service (key_of p) k _ l.timeouts h)
    | inr f ↦ rw f refl
  ]

  -- What the limiters say of a service that no configured service equals.
  pub services_kept :
      (start : Time) (ps : List (ProxyService D)) (k : Service) (l : StaticServiceLimiter)
      → All (λ p. service_eq (key_of p) k ≡ false) ps
      → (lookup_service k (add_services start ps l).capabilities ≡ lookup_service k l.capabilities)
        × (lookup_service k (add_services start ps l).constraints ≡ lookup_service k l.constraints)
        × (lookup_service k (add_services start ps l).timeouts ≡ lookup_service k l.timeouts)
  unfolding add_services
  services_kept start [] k l h = (refl, refl, refl)
  services_kept start (p ∷ ps) k l h =
      let (a, b, c) = services_kept start ps k (add_service start p l) h.1 in
      (
        a ∙ (unfold add_service in lookup-put_service (key_of p) k _ l.capabilities h.0),
        b ∙ (unfold add_service in constraints_kept (key_of p) k p.constraints l.constraints h.0),
        c ∙ timeouts_kept start p k l h.0,
      )

  -- No configured service has the name and the price of the service.
  abbrev pub AreOther : Service → List (ProxyService D) → Type 0
  AreOther k = All (λ p. service_eq (key_of p) k ≡ false)

  -- A service that no configured service equals in name, tier and price is minted without any
  -- restriction of the configuration: no capabilities, no constraints and no timeout.
  pub limiter-unrestricted :
      (start : Time) (ps : List (ProxyService D)) (k : Service)
      → AreOther k ps
      → (caveats_of (new_static_service_limiter start ps).capabilities (k ∷ []) ≡ [])
        × (constraints_of (new_static_service_limiter start ps).constraints (k ∷ []) ≡ [])
        × (caveats_of (new_static_service_limiter start ps).timeouts (k ∷ []) ≡ [])
  unfolding new_static_service_limiter caveats_of constraints_of lookup_service
  limiter-unrestricted start ps k h =
      let empty : StaticServiceLimiter = record {
        capabilities = [];
        constraints = [];
        timeouts = [];
      } in
      let (a, b, c) = services_kept start ps k empty h in
      (ground (arith, a), ground (arith, b), ground (arith, c))
