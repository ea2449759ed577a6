-- ===== src/Proxy/Matched.antt =====
-- Which service matchService of proxy/proxy.go finds.
use aperture.Prelude.{
  ℕ, suc, ◌≡◌, ◌↔◌, refl, ◌∙◌, Bool, true, false, not, List, [], ◌∷◌, if◌then◌else◌, bytes_eq,
  Option, none, some, Result, ok, err, ◌>>=◌, Result-cases, is_ok, is_err, Bool-cases, inl, inr,
  arith,
}
use aperture.Proxy.Backend.{ProxyService, Request, Regexps, must_match}
use aperture.Proxy.{later, match_service}

module _ {D : Type 0} (regexps : Regexps) (req : Request) where
  -- Whether one service matches: its host expression does, and its path expression, if it has one.
  unfoldable pub is_match : ProxyService D → Result Bool
  is_match s = must_match regexps s.host_regexp req.host >>= (λ host.
      if not host
      then ok false
      else if bytes_eq s.path_regexp []
      then ok true
      else must_match regexps s.path_regexp req.path)

  -- The first service of the list that matches, with its position.
  pub data IsFirst : List (ProxyService D) → ℕ → ProxyService D → Type 0 where
    here :
        {s : ProxyService D} {ss : List (ProxyService D)}
        → is_match s ≡ ok true
        → IsFirst (s ∷ ss) 0 s
    there :
        {s t : ProxyService D} {ss : List (ProxyService D)} {n : ℕ}
        → is_match s ≡ ok false
        → IsFirst ss n t
        → IsFirst (s ∷ ss) (suc n) t

  by_match :
      Result Bool → ProxyService D → List (ProxyService D) → Result (Option (ℕ × ProxyService D))
  by_match (err e) s ss = err e
  by_match (ok true) s ss = ok (some (0, s))
  by_match (ok false) s ss = match_service regexps req ss >>= (λ found. ok (later found))

  match-by_match :
      (s : ProxyService D) (ss : List (ProxyService D))
      → match_service regexps req (s ∷ ss) ≡ by_match (is_match s) s ss
  unfolding match_service is_match by_match
  match-by_match s ss = elim (Result-cases (must_match regexps s.host_regexp req.host)) [
    | is_err e k ↦ rw k refl
    | is_ok false k ↦ rw k refl
    | is_ok true k ↦ elim (Bool-cases (bytes_eq s.path_regexp [])) [
      | inl z ↦ rw (k, z) refl
      | inr z ↦ elim (Result-cases (must_match regexps s.path_regexp req.path)) [
        | is_err e q ↦ rw (k, z, q) refl
        | is_ok false q ↦ rw (k, z, q) refl
        | is_ok true q ↦ rw (k, z, q) refl
      ]
    ]
  ]

  forth :
      (ss : List (ProxyService D)) (n : ℕ) (t : ProxyService D)
      → match_service regexps req ss ≡ ok (some (n, t))
      → IsFirst ss n t
  unfolding match_service by_match
  forth [] n t h = absurd (cc h)
  forth (s ∷ ss) n t h = elim (Result-cases (is_match s)) [
    | is_err e k ↦ absurd (ground (arith, h, k, match-by_match s ss))
    | is_ok true k ↦
        let pos_eq : n ≡ 0 = ground (arith, h, k, match-by_match s ss) in
        let same : t ≡ s = ground (arith, h, k, match-by_match s ss) in rw (pos_eq, same) (here k)
    | is_ok false k ↦ elim (Result-cases (match_service regexps req ss)) [
      | is_err e q ↦ absurd (ground (arith, h, k, q, match-by_match s ss))
      | is_ok none q ↦ absurd (ground (arith, h, k, q, match-by_match s ss))
      | is_ok (some (m, u)) q ↦
          let pos_eq : n ≡ suc m = ground (arith, h, k, q, match-by_match s ss) in
          let same : t ≡ u = ground (arith, h, k, q, match-by_match s ss) in
          rw (pos_eq, same) (there k (forth ss m u q))
    ]
  ]

  back :
      (ss : List (ProxyService D)) (n : ℕ) (t : ProxyService D)
      → IsFirst ss n t
      → match_service regexps req ss ≡ ok (some (n, t))
  unfolding by_match
  back _ _ _ (here {s} {ss} k) = match-by_match s ss ∙ rw k refl
  back _ _ _ (there {s} {t} {ss} {n} k rest) = match-by_match s ss ∙ rw (k, back ss n t rest) refl

  -- A service is matched just when it is the first one of the list that matches the request, all
  -- the earlier ones having been tested without a panic.
  pub match_service_iff :
      (ss : List (ProxyService D)) (n : ℕ) (t : ProxyService D)
      → (match_service regexps req ss ≡ ok (some (n, t))) ↔ IsFirst ss n t
  match_service_iff ss n t = (forth ss n t, back ss n t)
