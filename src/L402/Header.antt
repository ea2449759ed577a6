-- ===== src/L402/Header.antt =====
-- l402/header.go: the L402 in HTTP headers.
pub mod Scan
pub mod RoundTrip
pub mod Last
use aperture.Prelude.{
  ℕ, ◌≡◌, Bool, true, false, ◌&&◌, ◌||◌, List, [], ◌∷◌, ◌++◌, if◌then◌else◌, Bytes, bytes_eq, codes,
  length, take, drop, ◌==◌, Option, none, some, Result, ok, err, ◌>>=◌, or_err, fail,
}
use aperture.Go.Strings.{has_prefix}
use aperture.Go.Base64.{base64_encode, base64_decode}
use aperture.Go.Hex.{hex_decode}
use aperture.Go.HttpHeader.{Header, get, values, set, add}
use aperture.L402.Lntypes.{Lntypes, is_lower_hex}
use aperture.L402.Macaroon.{MacaroonLib}
use aperture.L402.Caveat.{preimage_key, has_caveat}

-- HeaderAuthorization, HeaderMacaroonMD and HeaderMacaroon
abbrev pub header_authorization : Bytes
header_authorization = codes "Authorization"

abbrev pub header_macaroon_md : Bytes
header_macaroon_md = codes "Grpc-Metadata-Macaroon"

abbrev pub header_macaroon : Bytes
header_macaroon = codes "Macaroon"

abbrev pub all_bytes : (ℕ → Bool) → Bytes → Bool
all_bytes p [] = true
all_bytes p (c ∷ s) = p c && all_bytes p s

-- The text begins with a match of "[a-f0-9]{64}".
unfoldable pub hex_run : Bytes → Bool
hex_run s = length (take 64 s) == 64 && all_bytes is_lower_hex (take 64 s)

-- The match of "(.*?):([a-f0-9]{64})" at the start of a text; the dot matches no line end.
unfoldable pub match_rest : Bytes → Option (Bytes × Bytes)
unfolding hex_run
match_rest [] = none
match_rest (c ∷ s) =
    let longer : Option (Bytes × Bytes) = elim (match_rest s) [
      | none ↦ none
      | some (m, p) ↦ some (c ∷ m, p)
    ] in
    if c == b':' && hex_run s then some ([], take 64 s) else if c == 10 then none else longer

-- The second and third group of the leftmost match of authRegex,
-- "(LSAT|L402) (.*?):([a-f0-9]{64})".
unfoldable pub find_auth : Bytes → Option (Bytes × Bytes)
unfolding match_rest
find_auth [] = none
find_auth (c ∷ s) =
    let rest = find_auth s in
    if has_prefix (c ∷ s) (codes "LSAT ") || has_prefix (c ∷ s) (codes "L402 ")
    then (elim (match_rest (drop 5 (c ∷ s))) [ none ↦ rest | some m ↦ some m ])
    else rest

-- The loop over the header values: `matches` is overwritten in each round.
unfoldable pub match_values : Option (Bytes × Bytes) → List Bytes → Option (Bytes × Bytes)
unfolding find_auth
match_values matches [] = matches
match_values matches (v ∷ vs) = match_values (find_auth v) vs

-- The value of one Authorization field, authFormatLegacy or authFormat.
abbrev pub auth_value : Bytes → Bytes → Bytes → Bytes
auth_value scheme mac preimage = scheme ++ 32 ∷ (mac ++ b':' ∷ preimage)

abbrev pub is_given : Bytes → Bool
is_given [] = false
is_given (c ∷ s) = true

module _ (lib : MacaroonLib) (ln : Lntypes) where
  -- The first case: the macaroon and the preimage stand in the header.
  unfoldable pub from_authorization : List Bytes → Result (lib.Macaroon × Bytes)
  unfolding match_values
  from_authorization vs = do
    (mac_base64, preimage_hex) ← or_err (match_values none vs) fail
    mac_bytes ← base64_decode mac_base64
    mac ← lib.unmarshal_binary mac_bytes
    preimage ← ln.make_preimage_from_str preimage_hex
    ok (mac, preimage)

  -- The other cases: the preimage is a caveat of the macaroon.
  unfoldable pub from_macaroon : Bytes → Result (lib.Macaroon × Bytes)
  from_macaroon auth_header = do
    mac_bytes ← hex_decode auth_header
    mac ← lib.unmarshal_binary mac_bytes
    preimage_hex ← or_err (has_caveat lib mac preimage_key) fail
    preimage ← ln.make_preimage_from_str preimage_hex
    ok (mac, preimage)

  -- FromHeader
  unfoldable pub from_header : Header → Result (lib.Macaroon × Bytes)
  unfolding from_authorization from_macaroon
  from_header h =
      if is_given (get header_authorization h)
      then from_authorization (values header_authorization h)
      else if is_given (get header_macaroon_md h)
      then from_macaroon (get header_macaroon_md h)
      else if is_given (get header_macaroon h)
      then from_macaroon (get header_macaroon h)
      else err fail

  -- SetHeader: the legacy value first, then the current one.
  unfoldable pub set_header : Header → lib.Macaroon → Bytes → Result Header
  set_header h mac preimage = do
    mac_bytes ← lib.marshal_binary mac
    let mac_str = base64_encode mac_bytes
    let text = ln.preimage_string preimage
    let h' = set header_authorization (auth_value (codes "LSAT") mac_str text) h
    ok (add header_authorization (auth_value (codes "L402") mac_str text) h')
