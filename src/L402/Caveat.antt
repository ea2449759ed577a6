-- ===== src/L402/Caveat.antt =====
-- l402/caveat.go: caveats as text, the caveats of a macaroon, and their verification.
pub mod Codec
pub mod Lookup
pub mod Grouping
pub mod Authorized
use aperture.Prelude.{
  ◌≡◌, Bool, true, false, Option, none, some, List, [], ◌∷◌, ◌++◌, if◌then◌else◌, Bytes, bytes_eq,
  Result, ok, err, ◌>>=◌, ◌>>◌, err_invalid_caveat, panicked,
}
use aperture.Go.Strings.{split_n2}
use aperture.Go.Maps.{lookup, put}
use aperture.L402.Macaroon.{MacaroonLib}

pub record Caveat : Type 0 where
  pub condition : Bytes
  pub value : Bytes

-- PreimageKey
abbrev pub preimage_key : Bytes
preimage_key = b'p' ∷ b'r' ∷ b'e' ∷ b'i' ∷ b'm' ∷ b'a' ∷ b'g' ∷ b'e' ∷ []

unfoldable pub encode_caveat : Caveat → Bytes
encode_caveat c = c.condition ++ b'=' ∷ c.value

abbrev caveat_of_parts : List Bytes → Result Caveat
caveat_of_parts (p ∷ q ∷ []) = ok (record { condition = p; value = q })
caveat_of_parts _ = err err_invalid_caveat

unfoldable pub decode_caveat : Bytes → Result Caveat
decode_caveat s = caveat_of_parts (split_n2 b'=' s)

module _ (lib : MacaroonLib) where
  unfoldable pub add_first_party_caveats : lib.Macaroon → List Caveat → Result lib.Macaroon
  add_first_party_caveats m [] = ok m
  add_first_party_caveats m (c ∷ cs) = do
    m' ← lib.add_first_party_caveat m (encode_caveat c)
    add_first_party_caveats m' cs

-- One round of HasCaveat; `value` is what was found so far.
unfoldable pub note_caveat : Bytes → Option Bytes → Bytes → Option Bytes
note_caveat cond value raw = elim (decode_caveat raw) [
  | err e ↦ value
  | ok c ↦ if bytes_eq c.condition cond then some c.value else value
]

-- The loop of HasCaveat over the raw caveats.
unfoldable pub find_caveat : Bytes → Option Bytes → List Bytes → Option Bytes
unfolding note_caveat
find_caveat cond value [] = value
find_caveat cond value (raw ∷ rest) = find_caveat cond (note_caveat cond value raw) rest

module _ (lib : MacaroonLib) where
  unfoldable pub has_caveat : lib.Macaroon → Bytes → Option Bytes
  unfolding find_caveat
  has_caveat m cond = find_caveat cond none (lib.caveats m)

pub record Satisfier : Type 0 where
  pub condition : Bytes
  pub satisfy_previous : Caveat → Caveat → Result (Unit {0})
  pub satisfy_final : Caveat → Result (Unit {0})

-- The set of satisfiers: of two for one condition the later one stays.
unfoldable pub caveat_satisfiers :
    List (Bytes × Satisfier) → List Satisfier → List (Bytes × Satisfier)
caveat_satisfiers m [] = m
caveat_satisfiers m (s ∷ ss) = caveat_satisfiers (put s.condition s m) ss

abbrev pub Chains : Type 0
Chains = List (Bytes × List Caveat)

-- relevantCaveats[condition], which is nil for a missing key
abbrev pub chain_at : Bytes → Chains → List Caveat
chain_at k m = elim (lookup k m) [ none ↦ [] | some cs ↦ cs ]

-- One round of the grouping: a caveat that has a satisfier joins the chain of its condition.
unfoldable pub add_relevant : List (Bytes × Satisfier) → Chains → Caveat → Chains
add_relevant sats m c = elim (lookup c.condition sats) [
  | none ↦ m
  | some s ↦ put c.condition (chain_at c.condition m ++ c ∷ []) m
]

unfoldable pub relevant_caveats : List (Bytes × Satisfier) → Chains → List Caveat → Chains
unfolding add_relevant
relevant_caveats sats m [] = m
relevant_caveats sats m (c ∷ cs) = relevant_caveats sats (add_relevant sats m c) cs

-- Each caveat against the one before it, then the last one.
unfoldable pub verify_chain : Satisfier → List Caveat → Result (Unit {0})
verify_chain s [] = err panicked
verify_chain s (c ∷ []) = s.satisfy_final c
verify_chain s (p ∷ c ∷ cs) = do s.satisfy_previous p c; verify_chain s (c ∷ cs)

-- The check of one entry of the map. A missing satisfier would be the zero value, whose function
-- fields are nil.
unfoldable pub verify_entry : List (Bytes × Satisfier) → Bytes × List Caveat → Result (Unit {0})
unfolding verify_chain
verify_entry sats (k, cs) = elim (lookup k sats) [
  | none ↦ err panicked
  | some s ↦ verify_chain s cs
]

-- The loop over the conditions, in the order that `range` visits them.
unfoldable pub verify_chains : List (Bytes × Satisfier) → Chains → Result (Unit {0})
unfolding verify_entry
verify_chains sats [] = ok tt
verify_chains sats (e ∷ m) = do verify_entry sats e; verify_chains sats m

-- `visit` is the order in which the Go runtime ranges over the map.
unfoldable pub verify_caveats : (Chains → Chains) → List Caveat → List Satisfier → Result (Unit {0})
unfolding verify_chains relevant_caveats caveat_satisfiers
verify_caveats visit caveats satisfiers =
    let sats = caveat_satisfiers [] satisfiers in
    verify_chains sats (visit (relevant_caveats sats [] caveats))
