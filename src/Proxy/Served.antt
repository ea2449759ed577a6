-- ===== src/Proxy/Served.antt =====
-- Which requests proxy/proxy.go forwards.
use aperture.Prelude.{
  ℕ, zero, suc, ◌≡◌, refl, ap, ◌∙◌, ◌≢◌, sym, subst, [], ◌∷◌, Option, Bool, true, false, List,
  Bytes, bytes_eq, codes, none, some, ok, Result-cases, is_ok, is_err, Bool-cases, Option-cases,
  inl, inr, arith, ℤ, pos, negsuc,
}
use aperture.Auth.{Authenticator}
use aperture.Auth.Level.{is_on, is_freebie}
use aperture.Proxy.Backend.{
  ProxyService, Request, Regexps, FreebieDb, PriceServer, get_price, resource_name, auth_required,
}
use aperture.Proxy.Matched.{IsFirst, here, there, match_service_iff}
use aperture.Proxy.{
  set_freebies, match_service, State, forwarded, is_zero, is_panic, unpaid, challenge, serve_on,
  serve_freebie, tally, serve_matched, serve_http, dispatch_local,
}

abbrev pub service_at : {D : Type 0} → ℕ → List (ProxyService D) → Option (ProxyService D)
service_at n [] = none
service_at zero (s ∷ ss) = some s
service_at (suc n) (s ∷ ss) = service_at n ss

first_at :
    {D : Type 0} (regexps : Regexps) (req : Request) (ss : List (ProxyService D)) (n : ℕ)
    (s : ProxyService D)
    → IsFirst regexps req ss n s
    → service_at n ss ≡ some s
first_at regexps req [] n t h = elim h [ ]
first_at regexps req (s ∷ ss) n t (here k) = refl
first_at regexps req (s ∷ ss) n t (there k rest) = first_at regexps req ss _ t rest

set_freebies-here :
    {D : Type 0} (n : ℕ) (d : D) (ss : List (ProxyService D)) (s : ProxyService D)
    → service_at n ss ≡ some s
    → service_at n (set_freebies n d ss) ≡ some (record s { freebie_db = some d })
set_freebies-here n d [] s h = absurd (cc h)
set_freebies-here zero d (t ∷ ss) s h = let same : t ≡ s = cc h in rw same refl
set_freebies-here (suc n) d (t ∷ ss) s h = set_freebies-here n d ss s h

set_freebies-other :
    {D : Type 0} (n m : ℕ) (d : D) (ss : List (ProxyService D))
    → m ≢ n
    → service_at m (set_freebies n d ss) ≡ service_at m ss
set_freebies-other n m d [] h = refl
set_freebies-other zero zero d (t ∷ ss) h = absurd (h refl)
set_freebies-other zero (suc m) d (t ∷ ss) h = refl
set_freebies-other (suc n) zero d (t ∷ ss) h = refl
set_freebies-other (suc n) (suc m) d (t ∷ ss) h = set_freebies-other n m d ss (λ e. h (ap suc e))

module _ {S D : Type 0} (auth : Authenticator S) (db : FreebieDb D) (prices : PriceServer) where
  -- The state after a free request: the service has the store that TallyFreebie left, and nothing
  -- else has changed.
  pub record IsCounted (s : ProxyService D) (st : State S D) (n : ℕ) (freebies : D)
      (after : State S D) : Type 0 where
    pub same_auth : after.auth ≡ st.auth
    pub counted : service_at n after.services ≡ some (record s { freebie_db = some freebies })
    pub others : (m : ℕ) → m ≢ n → service_at m after.services ≡ service_at m st.services

  -- The reasons for which a request may pass to a service that asks for a level, with the state
  -- after it.
  pub data IsGranted (req : Request) (s : ProxyService D) (st : State S D) (n : ℕ) (level : Bytes)
      (after : State S D) : Type 0 where
    needs_none :
        is_on level ≡ false
        → is_freebie level ≡ false
        → after ≡ st
        → IsGranted req s st n level after
    authenticated :
        auth.accept st.auth req.header (resource_name s req.path) ≡ true
        → after ≡ st
        → IsGranted req s st n level after
    costs_nothing :
        get_price prices s req ≡ ok (pos 0) → after ≡ st → IsGranted req s st n level after
    is_free :
        (freebies : D) (b : Bool)
        → is_freebie level ≡ true
        → s.freebie_db ≡ some freebies
        → db.can_pass freebies req.remote_ip ≡ ok true
        → (db.tally_freebie freebies req.remote_ip).0 ≡ ok b
        → IsCounted s st n (db.tally_freebie freebies req.remote_ip).1 after
        → IsGranted req s st n level after

  -- Why a request was forwarded to the service at a position.
  pub record IsForwarded (regexps : Regexps) (req : Request) (st : State S D) (n : ℕ)
      (after : State S D) : Type 0 where
    pub service : ProxyService D
    pub level : Bytes
    pub no_options : bytes_eq req.method (codes "OPTIONS") ≡ false
    pub matched : match_service regexps req st.services ≡ ok (some (n, service))
    pub required : auth_required regexps service req ≡ ok level
    pub granted : IsGranted req service st n level after

  is_zero-eq : (z : ℤ) → is_zero z ≡ true → z ≡ pos 0
  is_zero-eq (pos zero) h = refl
  is_zero-eq (pos (suc n)) h = absurd (cc h)
  is_zero-eq (negsuc n) h = absurd (cc h)

  forwarded-injective : (m n : ℕ) → forwarded m ≡ forwarded n → m ≡ n
  forwarded-injective m n e = cc e

  unpaid-free :
      (req : Request) (s : ProxyService D) (m n : ℕ) (resource : Bytes) (asked : ℤ → ℤ)
      (st : State S D)
      → (unpaid auth db prices req s m resource asked st).0 ≡ forwarded n
      → (m ≡ n)
        × (get_price prices s req ≡ ok (pos 0))
        × ((unpaid auth db prices req s m resource asked st).1 ≡ st)
  unfolding unpaid challenge
  unpaid-free req s m n resource asked st h = elim (Result-cases (get_price prices s req)) [
    | is_err e k ↦ absurd (ground (arith, h, k, Bool-cases (is_panic e)))
    | is_ok p k ↦ elim (Bool-cases (is_zero p)) [
      | inl z ↦ (ground (arith, h, k, z), k ∙ ap ok (is_zero-eq p z), ground (arith, k, z))
      | inr z ↦ absurd (ground (arith, h, k, z))
    ]
  ]

  on-IsGranted :
      (req : Request) (s : ProxyService D) (m n : ℕ) (level : Bytes) (st : State S D)
      → (serve_on auth db prices req s m (resource_name s req.path) st).0 ≡ forwarded n
      → (m ≡ n)
        × IsGranted req s st n level
            (serve_on auth db prices req s m (resource_name s req.path) st).1
  unfolding serve_on
  on-IsGranted req s m n level st h =
      elim (Bool-cases (auth.accept st.auth req.header (resource_name s req.path))) [
        | inl a ↦ (ground (arith, h, a), authenticated a (ground (arith, a)))
        | inr a ↦
            let (e, free, same) =
              unpaid-free req s m n (resource_name s req.path) (λ price. price) st
                (ground (arith, h, a)) in
            (e, costs_nothing free (ground (arith, a, same)))
      ]

  tally-IsCounted :
      (req : Request) (s : ProxyService D) (n : ℕ) (d : D) (b : Bool) (st : State S D)
      → service_at n st.services ≡ some s
      → (db.tally_freebie d req.remote_ip).0 ≡ ok b
      → IsCounted s st n (db.tally_freebie d req.remote_ip).1 (tally auth db prices req n d st).1
  unfolding tally
  tally-IsCounted req s n d b st placed q =
      let d' : D = (db.tally_freebie d req.remote_ip).1 in
      let left : (tally auth db prices req n d st).1
          ≡ record st { services = set_freebies n d' st.services } =
        ground (arith, q) in
      subst (IsCounted s st n d') (sym left) (record {
        same_auth = refl;
        counted = set_freebies-here n d' st.services s placed;
        others = λ m h. set_freebies-other n m d' st.services h;
      })

  freebie-IsGranted :
      (req : Request) (s : ProxyService D) (m n : ℕ) (level : Bytes) (st : State S D)
      → is_freebie level ≡ true
      → service_at m st.services ≡ some s
      → (serve_freebie auth db prices req s m (resource_name s req.path) st).0 ≡ forwarded n
      → (m ≡ n)
        × IsGranted req s st n level
            (serve_freebie auth db prices req s m (resource_name s req.path) st).1
  unfolding serve_freebie tally
  freebie-IsGranted req s m n level st f placed h =
      elim (Bool-cases (auth.accept st.auth req.header (resource_name s req.path))) [
        | inl a ↦ (ground (arith, h, a), authenticated a (ground (arith, a)))
        | inr a ↦ elim (Option-cases s.freebie_db) [
          | inl none_there ↦ absurd (ground (arith, h, a, none_there))
          | inr (d, stored) ↦ elim (Result-cases (db.can_pass d req.remote_ip)) [
            | is_err e k ↦ absurd (ground (arith, h, a, stored, k))
            | is_ok true k ↦ elim (Result-cases (db.tally_freebie d req.remote_ip).0) [
              | is_err e q ↦ absurd (ground (arith, h, a, stored, k, q))
              | is_ok b q ↦
                  let same : m ≡ n = ground (arith, h, a, stored, k, q) in
                  let left : (serve_freebie auth db prices req s m (resource_name s req.path) st).1
                      ≡ (tally auth db prices req m d st).1 =
                    ground (arith, a, stored, k) in
                  let spent =
                    subst (IsCounted s st m (db.tally_freebie d req.remote_ip).1) (sym left)
                      (tally-IsCounted req s m d b st placed q) in
                  (
                    same,
                    is_free d b f stored k q (
                        subst
                          (λ x.
                            IsCounted s st x (db.tally_freebie d req.remote_ip).1
                              (serve_freebie auth db prices req s m (resource_name s req.path)
                                st).1)
                          same spent),
                  )
            ]
            | is_ok false k ↦
                let (e, free, same) =
                  unpaid-free req s m n (resource_name s req.path) (λ price. s.price) st
                    (ground (arith, h, a, stored, k)) in
                (e, costs_nothing free (ground (arith, a, stored, k, same)))
          ]
        ]
      ]

  matched-IsGranted :
      (regexps : Regexps) (req : Request) (s : ProxyService D) (m n : ℕ) (st : State S D)
      → service_at m st.services ≡ some s
      → (serve_matched auth db prices regexps req s m st).0 ≡ forwarded n
      → (level : Bytes) × (auth_required regexps s req ≡ ok level)
        × (m ≡ n)
        × IsGranted req s st n level (serve_matched auth db prices regexps req s m st).1
  unfolding serve_matched
  matched-IsGranted regexps req s m n st placed h =
      elim (Result-cases (auth_required regexps s req)) [
        | is_err e k ↦ absurd (ground (arith, h, k))
        | is_ok level k ↦ elim (Bool-cases (is_on level)) [
          | inl on ↦
              let (e, g) = on-IsGranted req s m n level st (ground (arith, h, k, on)) in
              (level, k, e, subst (IsGranted req s st n level) (ground (arith, k, on)) g)
          | inr off ↦ elim (Bool-cases (is_freebie level)) [
            | inl f ↦
                let (e, g) =
                  freebie-IsGranted req s m n level st f placed (ground (arith, h, k, off, f)) in
                (level, k, e, subst (IsGranted req s st n level) (ground (arith, k, off, f)) g)
            | inr f ↦ (
              level,
              k,
              ground (arith, h, k, off, f),
              needs_none off f (ground (arith, k, off, f)),
            )
          ]
        ]
      ]

  -- A request is forwarded to a service only if it is no OPTIONS request, the service is the one
  -- that matches it, and the service grants it: because of the level that it asks for the path,
  -- because the authenticator accepts the header for the resource, because the price of the request
  -- is zero, or as a free request that the store lets pass and counts. A free request leaves the
  -- service with the store as TallyFreebie left it, and all else as it was; in the other cases the
  -- state is the same as before.
  pub serve_http-IsForwarded :
      (regexps : Regexps) (locals : List (Request → Bool)) (req : Request) (st : State S D) (n : ℕ)
      → (serve_http auth db prices regexps locals req st).0 ≡ forwarded n
      → IsForwarded regexps req st n (serve_http auth db prices regexps locals req st).1
  unfolding serve_http
  serve_http-IsForwarded regexps locals req st n h =
      elim (Bool-cases (bytes_eq req.method (codes "OPTIONS"))) [
        | inl o ↦ absurd (ground (arith, h, o))
        | inr o ↦ elim (Result-cases (match_service regexps req st.services)) [
          | is_err e k ↦ absurd (ground (arith, h, o, k))
          | is_ok none k ↦
              absurd (ground (arith, h, o, k, Option-cases (dispatch_local 0 locals req)))
          | is_ok (some (m, s)) k ↦
              let (level, required, same, granted) =
                matched-IsGranted regexps req s m n st
                  (first_at regexps req st.services m s
                    ((match_service_iff regexps req st.services m s).0 k))
                  (ground (arith, h, o, k)) in
              record {
                service = s;
                level = level;
                no_options = o;
                matched = k ∙ ap (λ x. ok (some (x, s))) same;
                required = required;
                granted = subst (IsGranted req s st n level) (ground (arith, o, k)) granted;
              }
        ]
      ]
