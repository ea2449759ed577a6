-- ===== src/Proxy.antt =====
-- proxy/proxy.go: what the proxy does with a request. Regular expressions, the reverse proxy, the
-- authenticator, the freebie stores and the price server are parameters.
pub mod Backend
pub mod Respond
pub mod Matched
pub mod Served
pub mod Total
pub mod Prepared
pub mod Directed
use aperture.Prelude.{
  ℕ, ◌≡◌, Bool, true, false, not, List, [], ◌∷◌, ◌++◌, if◌then◌else◌, Bytes, bytes_eq, codes,
  Option, none, some, Result, ok, err, ◌>>=◌, or_err, Error, panicked, fail, ℤ, pos, negsuc, suc,
  zero,
}
use aperture.Go.HttpHeader.{Header, add, canonical}
use aperture.Auth.{Authenticator}
use aperture.Auth.Level.{is_on, is_freebie}
use aperture.L402.Macaroon.{MacaroonLib}
use aperture.L402.Lntypes.{Lntypes}
use aperture.L402.Header.{from_header, set_header}
use Backend.{
  ProxyService, Request, Regexps, must_match, FreebieDb, PriceServer, get_price, resource_name,
  auth_required,
}
use Respond.{Reply, direct, add_cors_headers, send_direct_response, handle_payment_required}

abbrev pub later : {D : Type 0} → Option (ℕ × ProxyService D) → Option (ℕ × ProxyService D)
later none = none
later (some (n, s)) = some (suc n, s)

-- matchService: the position of the service, and the service
unfoldable pub match_service :
    {D : Type 0} → Regexps → Request → List (ProxyService D) → Result (Option (ℕ × ProxyService D))
match_service regexps req [] = ok none
match_service regexps req (service ∷ services) =
    let rest = match_service regexps req services >>= (λ found. ok (later found)) in
    must_match regexps service.host_regexp req.host >>= (λ host.
      if not host
      then rest
      else if bytes_eq service.path_regexp []
      then ok (some (0, service))
      else (must_match regexps service.path_regexp req.path
          >>= (λ path. if path then ok (some (0, service)) else rest)))

-- A local service: its IsHandling; it is known by its place in the list.
unfoldable pub dispatch_local : ℕ → List (Request → Bool) → Request → Option ℕ
dispatch_local n [] req = none
dispatch_local n (handles ∷ locals) req =
    let rest = dispatch_local (suc n) locals req in if handles req then some n else rest

-- The outcome of a request: forwarded to a service, dispatched to a local service, answered
-- directly, or a panic.
pub data Outcome : Type 0 where
  forwarded : ℕ → Outcome
  local : ℕ → Outcome
  answered : Reply → Outcome
  panics : Outcome

-- The state that requests change: the authenticator's, and the freebie stores in the services.
pub record State (S D : Type 0) : Type 0 where
  pub auth : S
  pub services : List (ProxyService D)

abbrev pub set_freebies : {D : Type 0} → ℕ → D → List (ProxyService D) → List (ProxyService D)
set_freebies n d [] = []
set_freebies zero d (s ∷ ss) = record s { freebie_db = some d } ∷ ss
set_freebies (suc n) d (s ∷ ss) = s ∷ set_freebies n d ss

abbrev pub is_panic : Error → Bool
is_panic panicked = true
is_panic _ = false

abbrev pub is_zero : ℤ → Bool
is_zero (pos zero) = true
is_zero (pos (suc n)) = false
is_zero (negsuc n) = false

module _ {S D : Type 0} (auth : Authenticator S) (db : FreebieDb D) (prices : PriceServer) where
  -- The answer 402 with a challenge for the price.
  unfoldable pub challenge : Request → Bytes → ℤ → State S D → Outcome × State S D
  challenge req resource price st =
      let (header, auth') = auth.fresh_challenge_header st.auth resource price in
      (answered (handle_payment_required req header), record st { auth = auth' })

  -- A request that is not authenticated: a price of zero lets it through; otherwise it is
  -- challenged for `asked`, given the price.
  unfoldable pub unpaid :
      Request → ProxyService D → ℕ → Bytes → (ℤ → ℤ) → State S D → Outcome × State S D
  unfolding challenge get_price
  unpaid req target n resource asked st = elim (get_price prices target req) [
    | err e ↦ if is_panic e then (panics, st) else (
      answered (send_direct_response req [] 500 (codes "failure fetching resource price")),
      st,
    )
    | ok price ↦
        if is_zero price then (forwarded n, st) else challenge req resource (asked price) st
  ]

  -- The case authLevel.IsOn()
  unfoldable pub serve_on : Request → ProxyService D → ℕ → Bytes → State S D → Outcome × State S D
  unfolding unpaid
  serve_on req target n resource st =
      if auth.accept st.auth req.header resource
      then (forwarded n, st)
      else unpaid req target n resource (λ price. price) st

  -- TallyFreebie, and then the request passes.
  unfoldable pub tally : Request → ℕ → D → State S D → Outcome × State S D
  tally req n freebies st =
      let (tallied, freebies') = db.tally_freebie freebies req.remote_ip in
      let st' = record st { services = set_freebies n freebies' st.services } in
      elim tallied [
        | err e ↦ (answered (send_direct_response req [] 500 (codes "freebie DB failure")), st')
        | ok b ↦ (forwarded n, st')
      ]

  -- The case authLevel.IsFreebie(); the challenge is for the price of the configuration.
  unfoldable pub serve_freebie :
      Request → ProxyService D → ℕ → Bytes → State S D → Outcome × State S D
  unfolding unpaid tally
  serve_freebie req target n resource st =
      if auth.accept st.auth req.header resource
      then (forwarded n, st)
      else elim target.freebie_db [
        | none ↦ (panics, st)
        | some freebies ↦ elim (db.can_pass freebies req.remote_ip) [
          | err e ↦ (answered (send_direct_response req [] 500 (codes "freebie DB failure")), st)
          | ok true ↦ tally req n freebies st
          | ok false ↦ unpaid req target n resource (λ price. target.price) st
        ]
      ]

  -- What follows matchService.
  unfoldable pub serve_matched :
      Regexps → Request → ProxyService D → ℕ → State S D → Outcome × State S D
  unfolding serve_on serve_freebie auth_required
  serve_matched regexps req target n st = elim (auth_required regexps target req) [
    | err e ↦ (panics, st)
    | ok level ↦
        if is_on level
        then serve_on req target n (resource_name target req.path) st
        else if is_freebie level
        then serve_freebie req target n (resource_name target req.path) st
        else (forwarded n, st)
  ]

  -- ServeHTTP
  unfoldable pub serve_http :
      Regexps → List (Request → Bool) → Request → State S D → Outcome × State S D
  unfolding match_service serve_matched
  serve_http regexps locals req st =
      if bytes_eq req.method (codes "OPTIONS")
      then (answered (send_direct_response req (add_cors_headers []) 200 []), st)
      else elim (match_service regexps req st.services) [
        | err e ↦ (panics, st)
        | ok (some (n, target)) ↦ serve_matched regexps req target n st
        | ok none ↦ elim (dispatch_local 0 locals req) [
          | some m ↦ (local m, st)
          | none ↦ (answered (send_direct_response req (add_cors_headers []) 500 []), st)
        ]
      ]

-- The loop of the director over the configured fields, whose names are written in any way.
unfoldable pub add_fields : List (Bytes × Bytes) → Header → Header
unfolding canonical
add_fields [] h = h
add_fields ((name, value) ∷ fields) h = add_fields fields (add (canonical name) value h)

-- The director rewrites the credentials that it finds in the standard form.
unfoldable pub standard_header : (lib : MacaroonLib) → Lntypes → Header → Header
standard_header lib ln h = elim (from_header lib ln h) [
  | err e ↦ h
  | ok (mac, preimage) ↦ elim (set_header lib ln h mac preimage) [ err e ↦ h | ok h' ↦ h' ]
]

-- The director: the address and the header with which a request goes to its service.
module _ {D : Type 0} (lib : MacaroonLib) (ln : Lntypes) where
  unfoldable pub director : Regexps → List (ProxyService D) → Request → Result Request
  unfolding match_service standard_header add_fields
  director regexps services req = do
    found ← match_service regexps req services
    elim found [
      | none ↦ ok req
      | some (n, target) ↦ ok (record req {
        host = target.address;
        url_host = target.address;
        url_scheme = target.protocol;
        header = add_fields target.headers (standard_header lib ln req.header);
      })
    ]
