-- ===== src/Tests/ProxyRuns.antt =====
-- A proxy with three services, and instances of the theorems about it.
use aperture.Prelude.{
  ◌≡◌, ◌↔◌, refl, true, false, bytes_eq, codes, replicate, List, [], ◌∷◌, none, some, ok, err, pos,
  fail, arith, All,
}
use aperture.Go.HttpHeader.{values, get, canonical}
use aperture.Go.Maps.{lookup, put}
use aperture.Go.Strings.{to_lower, has_prefix, split, join}
use aperture.Go.Strconv.{parse_int, signed, format_uint}
use aperture.Auth.{Authenticator}
use aperture.Auth.Level.{is_on, is_freebie, freebie_count}
use aperture.Freebie.{
  MemStore, can_pass, tally_freebie, new_mem_ip_mask_store, get_key, current_count, mask_ip,
}
use aperture.Freebie.Limit.{passes, passes-min}
use aperture.L402.Header.{from_header}
use aperture.Proxy.Backend.{
  ProxyService, Request, Regexps, FreebieDb, PriceServer, must_match, whitelisted, auth_required,
  get_price, resource_name, prepare_services, prepare_service, price_of, checked_price,
  freebie_store, header_fields, field_value, check_whitelist,
}
use aperture.Proxy.{
  State, match_service, serve_http, serve_matched, serve_on, serve_freebie, tally, unpaid, director,
}
use aperture.Proxy.Matched.{IsFirst, match_service_iff}
use aperture.Proxy.Served.{IsForwarded, serve_http-IsForwarded}
use aperture.Proxy.Prepared.{IsPrepared, prepare_services-All}
use aperture.Proxy.Directed.{director-from_header}
use aperture.Tests.Macaroons.{toys, toys-IsMacaroonLib}
use aperture.Tests.RequestRuns.{
  toy_ln, toy_ln-IsLntypes, small, proof, sent, marshaled, marshal-marshaled, from-set_header_again,
  proof-IsPreimage,
}

abbrev mem_db : FreebieDb MemStore
mem_db = record {
  can_pass = can_pass;
  tally_freebie = tally_freebie;
  new_store = new_mem_ip_mask_store;
}

abbrev exact : Regexps
exact = record { compiles = λ e. true; match_string = bytes_eq }

abbrev pub loop : ProxyService MemStore
loop = record {
  name = codes "loop";
  tls_cert_path = [];
  address = codes "10.0.0.1:80";
  protocol = codes "https";
  auth = codes "Freebie 2";
  host_regexp = codes "loop.test";
  path_regexp = [];
  headers = (codes "macaroon", codes "00") ∷ [];
  timeout = pos 0;
  capabilities = [];
  constraints = [];
  price = pos 0;
  dynamic_price_enabled = false;
  dynamic_price_address = [];
  auth_whitelist_paths = codes "/open" ∷ [];
  freebie_db = some (new_mem_ip_mask_store 2);
  pricer = none;
}

abbrev pool : ProxyService MemStore
pool = record loop { name = codes "pool"; auth = codes "on"; host_regexp = codes "pool.test" }

abbrev services : List (ProxyService MemStore)
services = pool ∷ loop ∷ []

abbrev request : Request
request = record {
  method = codes "GET";
  host = codes "loop.test";
  path = codes "/terms";
  header = [];
  remote_ip = 1 ∷ 2 ∷ 3 ∷ 4 ∷ [];
  url_host = [];
  url_scheme = [];
}

abbrev nobody : Authenticator (Unit {0})
nobody = record {
  accept = λ st h name. false;
  fresh_challenge_header = λ st name price. (err fail, st);
}

abbrev no_server : PriceServer
no_server = record { connects = λ a. false; rpc_price = λ a req. err fail }

abbrev state : State (Unit {0}) MemStore
state = record { auth = tt; services = services }

proxy_runs : Unit {0}
unfolding lookup put bytes_eq to_lower has_prefix split parse_int signed format_uint is_on
    is_freebie freebie_count can_pass tally_freebie get_key current_count mask_ip must_match
    whitelisted auth_required get_price resource_name prepare_services prepare_service price_of
    checked_price freebie_store header_fields field_value check_whitelist match_service serve_http
    serve_matched serve_on serve_freebie tally unpaid director values get join canonical
proxy_runs = tt

match_service_iff_example :
    (match_service exact request services ≡ ok (some (1, loop)))
    ↔ IsFirst exact request services 1 loop
match_service_iff_example = match_service_iff exact request services 1 loop

-- The first request of an address is free.
serve_http-IsForwarded_example :
    IsForwarded nobody mem_db no_server exact request state 1
      (serve_http nobody mem_db no_server exact [] request state).1
unfolding proxy_runs
serve_http-IsForwarded_example =
    serve_http-IsForwarded nobody mem_db no_server exact [] request state 1 refl

abbrev prepared : List (ProxyService MemStore)
prepared = elim (prepare_services mem_db no_server exact (λ name. err fail) services) [
  | ok ps ↦ ps
  | err e ↦ []
]

prepare_services-All_example : All (IsPrepared exact) prepared
unfolding proxy_runs
prepare_services-All_example =
    prepare_services-All mem_db no_server exact (λ name. err fail) services prepared refl

passes-min_example :
    passes (get_key request.remote_ip) (new_mem_ip_mask_store 2) (replicate 3 request.remote_ip) ≡ 2
unfolding proxy_runs
passes-min_example =
    passes-min (get_key request.remote_ip) (new_mem_ip_mask_store 2) (replicate 3 request.remote_ip)
      (omega arith) (omega arith)

spelled : canonical (codes "grpc-metadata-MACAROON") ≡ codes "Grpc-Metadata-Macaroon"
unfolding canonical
spelled = refl

abbrev with_token : Request
with_token = record request { header = sent }

abbrev directed : Request
directed = elim (director toys toy_ln exact services with_token) [ ok r ↦ r | err e ↦ request ]

director-from_header_example :
    (directed.url_host ≡ loop.address)
    × (directed.url_scheme ≡ loop.protocol)
    × (directed.host ≡ loop.address)
    × (from_header toys toy_ln directed.header ≡ ok (small, proof))
unfolding proxy_runs
director-from_header_example =
    director-from_header toys toy_ln toys-IsMacaroonLib toy_ln-IsLntypes exact services with_token
      directed 1 loop small proof (marshaled small) refl from-set_header_again
      (marshal-marshaled small) proof-IsPreimage (cc, tt) refl
