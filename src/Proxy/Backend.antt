-- ===== src/Proxy/Backend.antt =====
-- proxy/service.go and pricer/defaultPricer.go: configured services and their preparation.
use aperture.Prelude.{
  ℕ, ◌*◌, Bool, true, false, not, List, [], ◌∷◌, ◌++◌, if◌then◌else◌, Bytes, bytes_eq, codes,
  Option, none, some, Result, ok, err, ◌>>=◌, panicked, fail, ℤ, pos, negsuc, zero, suc, ltb,
}
use aperture.Go.HttpHeader.{Header}
use aperture.Go.Hex.{hex_encode}
use aperture.Go.Base64.{base64_encode}
use aperture.Go.Strings.{split, has_prefix}
use aperture.Auth.Level.{level_off, is_freebie, freebie_count}

-- What the code reads of an http.Request, with the parsed remote address.
pub record Request : Type 0 where
  pub method : Bytes
  pub host : Bytes
  pub path : Bytes
  pub header : Header
  pub remote_ip : Bytes
  pub url_host : Bytes
  pub url_scheme : Bytes

-- The engine of regular expressions: whether an expression compiles, and what it matches.
pub record Regexps : Type 0 where
  pub compiles : Bytes → Bool
  pub match_string : Bytes → Bytes → Bool

-- regexp.MustCompile(e).MatchString(s), which panics at an expression that does not compile
unfoldable pub must_match : Regexps → Bytes → Bytes → Result Bool
must_match regexps e s = if regexps.compiles e then ok (regexps.match_string e s) else err panicked

-- freebie.DB
pub record FreebieDb (D : Type 0) : Type 0 where
  pub can_pass : D → Bytes → Result Bool
  pub tally_freebie : D → Bytes → Result Bool × D
  -- NewMemIPMaskStore in prepareServices
  pub new_store : ℕ → D

-- A pricer: the default one with its price, or the client of a price server.
pub data Pricer : Type 0 where
  default_pricer : ℤ → Pricer
  grpc_pricer : Bytes → Pricer

pub record ProxyService (D : Type 0) : Type 0 where
  pub name : Bytes
  pub tls_cert_path : Bytes
  pub address : Bytes
  pub protocol : Bytes
  pub auth : Bytes
  pub host_regexp : Bytes
  pub path_regexp : Bytes
  pub headers : List (Bytes × Bytes)
  pub timeout : ℤ
  pub capabilities : Bytes
  pub constraints : List (Bytes × Bytes)
  pub price : ℤ
  pub dynamic_price_enabled : Bool
  pub dynamic_price_address : Bytes
  pub auth_whitelist_paths : List Bytes
  pub freebie_db : Option D
  pub pricer : Option Pricer

-- A price server: whether a client can be made for its address, and the price that it answers.
pub record PriceServer : Type 0 where
  pub connects : Bytes → Bool
  pub rpc_price : Bytes → Request → Result ℤ

-- GetPrice of the service's pricer
unfoldable pub get_price : {D : Type 0} → PriceServer → ProxyService D → Request → Result ℤ
get_price prices s req = elim s.pricer [
  | none ↦ err panicked
  | some (default_pricer price) ↦ ok price
  | some (grpc_pricer address) ↦ elim (prices.rpc_price address req) [
    | ok p ↦ ok p
    | err e ↦ err fail
  ]
]

-- ResourceName
unfoldable pub resource_name : {D : Type 0} → ProxyService D → Bytes → Bytes
resource_name s resource_path = if s.dynamic_price_enabled then s.name ++ resource_path else s.name

-- The loop of AuthRequired over the whitelist
unfoldable pub whitelisted : Regexps → List Bytes → Bytes → Result Bool
whitelisted regexps [] path = ok false
whitelisted regexps (e ∷ es) path =
    let rest = whitelisted regexps es path in
    must_match regexps e path >>= (λ found. if found then ok true else rest)

-- AuthRequired
unfoldable pub auth_required : {D : Type 0} → Regexps → ProxyService D → Request → Result Bytes
unfolding whitelisted
auth_required regexps s req = do
  off ← whitelisted regexps s.auth_whitelist_paths req.path
  ok (if off then level_off else s.auth)

-- filePrefix, filePrefixHex and filePrefixBase64
abbrev pub file_prefix : Bytes
file_prefix = codes "!file"

abbrev pub file_prefix_hex : Bytes
file_prefix_hex = file_prefix ++ codes "+hex"

abbrev pub file_prefix_base64 : Bytes
file_prefix_base64 = file_prefix ++ codes "+base64"

-- The two formats of the content of a file
unfoldable pub in_format : Bytes → Bytes → Result Bytes
in_format prefix bytes =
    if bytes_eq prefix file_prefix_hex
    then ok (hex_encode bytes)
    else if bytes_eq prefix file_prefix_base64
    then ok (base64_encode bytes)
    else err fail

-- The new value of one configured header field.
unfoldable pub field_value : (Bytes → Result Bytes) → Bytes → Result Bytes
unfolding in_format
field_value read_file value =
    if not (has_prefix value file_prefix) then ok value else elim (split b':' value) [
      | prefix ∷ file_name ∷ [] ↦ do bytes ← read_file file_name; in_format prefix bytes
      | _ ↦ err fail
    ]

-- The loop over the header fields
unfoldable pub header_fields :
    (Bytes → Result Bytes) → List (Bytes × Bytes) → Result (List (Bytes × Bytes))
unfolding field_value
header_fields read_file [] = ok []
header_fields read_file ((key, value) ∷ fields) = do
  new_value ← field_value read_file value
  rest ← header_fields read_file fields
  ok ((key, new_value) ∷ rest)

-- The loop that compiles the whitelist
unfoldable pub check_whitelist : Regexps → List Bytes → Result (Unit {0})
check_whitelist regexps [] = ok tt
check_whitelist regexps (e ∷ es) =
    let rest = check_whitelist regexps es in if regexps.compiles e then rest else err fail

-- maxServicePrice: 100000 bitcoin in satoshis
abbrev pub max_service_price : ℕ
max_service_price = 100000000 * 100000

-- The checks of a static price.
unfoldable pub checked_price : ℤ → Result ℤ
checked_price (negsuc n) = err fail
checked_price (pos zero) = ok (pos 1)
checked_price (pos (suc n)) = if ltb max_service_price (suc n) then err fail else ok (pos (suc n))

module _ {D : Type 0} (db : FreebieDb D) (prices : PriceServer) (regexps : Regexps)
    (read_file : Bytes → Result Bytes) where
  -- The store of a freebie service
  unfoldable pub freebie_store : ProxyService D → Result (Option D)
  freebie_store s =
      if is_freebie s.auth
      then (do count ← freebie_count s.auth; ok (some (db.new_store count)))
      else ok s.freebie_db

  -- The pricer of a service, and its price
  unfoldable pub price_of : ProxyService D → Result (ℤ × Pricer)
  unfolding checked_price
  price_of s =
      if s.dynamic_price_enabled
      then (if prices.connects s.dynamic_price_address
          then ok (s.price, grpc_pricer s.dynamic_price_address)
          else err fail)
      else do price ← checked_price s.price; ok (price, default_pricer price)

  -- One round of prepareServices
  unfoldable pub prepare_service : ProxyService D → Result (ProxyService D)
  unfolding freebie_store price_of header_fields check_whitelist
  prepare_service s = do
    freebies ← freebie_store s
    fields ← header_fields read_file s.headers
    checked ← check_whitelist regexps s.auth_whitelist_paths
    (price, pricer) ← price_of s
    ok (record s { freebie_db = freebies; headers = fields; price = price; pricer = some pricer })

  -- prepareServices
  unfoldable pub prepare_services : List (ProxyService D) → Result (List (ProxyService D))
  unfolding prepare_service
  prepare_services [] = ok []
  prepare_services (s ∷ ss) = do
    prepared ← prepare_service s
    rest ← prepare_services ss
    ok (prepared ∷ rest)
