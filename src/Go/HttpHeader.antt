-- ===== src/Go/HttpHeader.antt =====
-- http.Header, with the names in their canonical spelling: the constant names of the code are written
-- so, and `canonical` brings others into it, as Header.Add does.
use aperture.Prelude.{
  ◌+◌, codes, false, ◌-◌, ◌||◌, leb, ◌==◌, ◌&&◌, ℕ, Bool, true, ◌≡◌, List, [], ◌∷◌, ◌++◌,
  if◌then◌else◌, Bytes, bytes_eq, none, some, arith,
}
use aperture.Go.Maps.{lookup, put, lookup-put}

abbrev pub Header : Type 0
Header = List (Bytes × List Bytes)

-- h.Values(name)
unfoldable pub values : Bytes → Header → List Bytes
values name h = elim (lookup name h) [ none ↦ [] | some vs ↦ vs ]

abbrev pub first : List Bytes → Bytes
first [] = []
first (v ∷ vs) = v

-- h.Get(name), which is empty for a missing field
unfoldable pub get : Bytes → Header → Bytes
unfolding values
get name h = first (values name h)

-- h.Set(name, value)
unfoldable pub set : Bytes → Bytes → Header → Header
set name value h = put name (value ∷ []) h

-- h.Add(name, value)
unfoldable pub add : Bytes → Bytes → Header → Header
unfolding values
add name value h = put name (values name h ++ value ∷ []) h

pub values-set :
    (name other value : Bytes) (h : Header)
    → values other (set name value h) ≡ (if bytes_eq name other then value ∷ [] else values other h)
unfolding values set
values-set name other value h = ground (arith, lookup-put name other (value ∷ []) h)

pub values-add :
    (name other value : Bytes) (h : Header)
    → values other (add name value h)
      ≡ (if bytes_eq name other then values name h ++ value ∷ [] else values other h)
unfolding values add
values-add name other value h =
    ground (arith, lookup-put name other (values name h ++ value ∷ []) h)

abbrev is_one_of : ℕ → Bytes → Bool
is_one_of c [] = false
is_one_of c (d ∷ s) = c == d || is_one_of c s

abbrev is_between : ℕ → ℕ → ℕ → Bool
is_between low high c = leb low c && leb c high

-- A byte of a token
abbrev is_token_byte : ℕ → Bool
is_token_byte c =
    is_between b'a' b'z' c
    || (is_between b'A' b'Z' c || (is_between b'0' b'9' c || is_one_of c (codes "!#$%&'*+-.^_`|~")))

abbrev is_token : Bytes → Bool
is_token [] = true
is_token (c ∷ s) = is_token_byte c && is_token s

abbrev with_case : Bool → ℕ → ℕ
with_case true c = if is_between b'a' b'z' c then c - 32 else c
with_case false c = if is_between b'A' b'Z' c then c + 32 else c

-- The first letter, and each one after a dash, is a capital.
abbrev capitals : Bool → Bytes → Bytes
capitals upper [] = []
capitals upper (c ∷ s) = with_case upper c ∷ capitals (c == b'-') s

-- CanonicalMIMEHeaderKey: a name that is no token stays as it is.
unfoldable pub canonical : Bytes → Bytes
canonical name = if is_token name then capitals true name else name
