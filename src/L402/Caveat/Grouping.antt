-- ===== src/L402/Caveat/Grouping.antt =====
-- The maps that VerifyCaveats builds, and what one chain is checked for.
use mathlib.Core.List.{append-nil, append_assoc}
use aperture.Prelude.{
  ◌≡◌, refl, sym, ◌∙◌, subst, ◌≢◌, ◌↔◌, inl, inr, Option, none, some, List, [], ◌∷◌, ◌++◌,
  if◌then◌else◌, Bytes, bytes_eq, bytes_eq_iff, All, ok, >>-eq-ok_iff, Option-cases, arith,
}
use aperture.Go.Maps.{lookup, put, lookup-put, put-IsMap, IsMap}
use aperture.L402.Caveat.{
  Caveat, Satisfier, Chains, chain_at, caveat_satisfiers, add_relevant, relevant_caveats,
  verify_chain, verify_entry, verify_chains,
}

-- The satisfier that counts for a condition: the last one given.
abbrev pub satisfier_for : Bytes → List Satisfier → Option Satisfier
satisfier_for k [] = none
satisfier_for k (s ∷ ss) = elim (satisfier_for k ss) [
  | some t ↦ some t
  | none ↦ if bytes_eq s.condition k then some s else none
]

-- The caveats of one condition, in order.
abbrev pub chain_of : Bytes → List Caveat → List Caveat
chain_of k [] = []
chain_of k (c ∷ cs) = let rest = chain_of k cs in if bytes_eq c.condition k then c ∷ rest else rest

-- Each caveat satisfies the one before it, and the last one is satisfied.
abbrev pub Attenuates : Satisfier → List Caveat → Type 0
Attenuates s [] = Unit {0}
Attenuates s (c ∷ []) = s.satisfy_final c ≡ ok tt
Attenuates s (p ∷ c ∷ cs) = (s.satisfy_previous p c ≡ ok tt) × Attenuates s (c ∷ cs)

-- Every condition that has a satisfier has a chain that attenuates.
abbrev pub IsAuthorized : List Satisfier → List Caveat → Type 0
IsAuthorized ss cs =
    (k : Bytes) (s : Satisfier) → satisfier_for k ss ≡ some s → Attenuates s (chain_of k cs)

pub lookup-caveat_satisfiers :
    (k : Bytes) (m : List (Bytes × Satisfier)) (ss : List Satisfier)
    → lookup k (caveat_satisfiers m ss)
      ≡ elim (satisfier_for k ss) [ some t ↦ some t | none ↦ lookup k m ]
unfolding caveat_satisfiers
lookup-caveat_satisfiers k m [] = refl
lookup-caveat_satisfiers k m (s ∷ ss) =
    ground
      (arith, lookup-caveat_satisfiers k (put s.condition s m) ss, lookup-put s.condition k s m)

append-ne-nil : (cs : List Caveat) (c : Caveat) → cs ++ c ∷ [] ≢ []
append-ne-nil [] c = cc
append-ne-nil (x ∷ cs) c = cc

module _ (sats : List (Bytes × Satisfier)) where
  chain_at-add :
      (k : Bytes) (s : Satisfier) (m : Chains) (c : Caveat)
      → lookup k sats ≡ some s
      → chain_at k (add_relevant sats m c)
        ≡ (if bytes_eq c.condition k then chain_at k m ++ c ∷ [] else chain_at k m)
  unfolding add_relevant
  chain_at-add k s m c h = ground (
    arith,
    bytes_eq_iff c.condition k,
    lookup-put c.condition k (chain_at c.condition m ++ c ∷ []) m,
  )

  pub chain_at-relevant :
      (k : Bytes) (s : Satisfier) (m : Chains) (cs : List Caveat)
      → lookup k sats ≡ some s
      → chain_at k (relevant_caveats sats m cs) ≡ chain_at k m ++ chain_of k cs
  unfolding relevant_caveats
  chain_at-relevant k s m [] h = sym (append-nil _)
  chain_at-relevant k s m (c ∷ cs) h = ground (
    arith,
    chain_at-relevant k s (add_relevant sats m c) cs h,
    chain_at-add k s m c h,
    append_assoc (chain_at k m) (c ∷ []) (chain_of k cs),
  )

  lookup-add_none :
      (k : Bytes) (m : Chains) (c : Caveat)
      → lookup k sats ≡ none
      → lookup k (add_relevant sats m c) ≡ lookup k m
  unfolding add_relevant
  lookup-add_none k m c h = ground (
    arith,
    bytes_eq_iff c.condition k,
    lookup-put c.condition k (chain_at c.condition m ++ c ∷ []) m,
  )

  pub lookup-relevant_none :
      (k : Bytes) (m : Chains) (cs : List Caveat)
      → lookup k sats ≡ none
      → lookup k (relevant_caveats sats m cs) ≡ lookup k m
  unfolding relevant_caveats
  lookup-relevant_none k m [] h = refl
  lookup-relevant_none k m (c ∷ cs) h =
      lookup-relevant_none k (add_relevant sats m c) cs h ∙ lookup-add_none k m c h

  add-IsMap : (m : Chains) (c : Caveat) → IsMap m → IsMap (add_relevant sats m c)
  unfolding add_relevant
  add-IsMap m c h = elim (Option-cases (lookup c.condition sats)) [
    | inl e ↦ let p : m ≡ add_relevant sats m c = ground arith in subst IsMap p h
    | inr (s, e) ↦
        let p : put c.condition (chain_at c.condition m ++ c ∷ []) m ≡ add_relevant sats m c =
          ground arith in
        subst IsMap p (put-IsMap c.condition _ m h)
  ]

  pub relevant-IsMap :
      (m : Chains) (cs : List Caveat) → IsMap m → IsMap (relevant_caveats sats m cs)
  unfolding relevant_caveats
  relevant-IsMap m [] h = h
  relevant-IsMap m (c ∷ cs) h = relevant-IsMap (add_relevant sats m c) cs (add-IsMap m c h)

  -- No chain in the map is empty.
  abbrev pub IsFull : Chains → Type 0
  IsFull m = (k : Bytes) → lookup k m ≢ some []

  add-IsFull : (m : Chains) (c : Caveat) → IsFull m → IsFull (add_relevant sats m c)
  unfolding add_relevant
  add-IsFull m c h k = ground (
    arith,
    h k,
    bytes_eq_iff c.condition k,
    lookup-put c.condition k (chain_at c.condition m ++ c ∷ []) m,
    append-ne-nil (chain_at c.condition m) c,
  )

  pub relevant-IsFull :
      (m : Chains) (cs : List Caveat) → IsFull m → IsFull (relevant_caveats sats m cs)
  unfolding relevant_caveats
  relevant-IsFull m [] h = h
  relevant-IsFull m (c ∷ cs) h = relevant-IsFull (add_relevant sats m c) cs (add-IsFull m c h)

pub verify_chains_iff :
    (sats : List (Bytes × Satisfier)) (m : Chains)
    → (verify_chains sats m ≡ ok tt) ↔ All (λ e. verify_entry sats e ≡ ok tt) m
unfolding verify_chains
verify_chains_iff sats [] = (λ h. tt, λ h. refl)
verify_chains_iff sats (e ∷ m) =
    let (to, from) = >>-eq-ok_iff (verify_entry sats e) (verify_chains sats m) in
    let (all, ran) = verify_chains_iff sats m in
    (λ h. ((to h).0, all (to h).1), λ h. from (h.0, ran h.1))

pub verify_chain_iff :
    (s : Satisfier) (cs : List Caveat) → (verify_chain s cs ≡ ok tt) ↔ ((cs ≢ []) × Attenuates s cs)
unfolding verify_chain
verify_chain_iff s [] = (λ h. cc, λ h. absurd (h.0 refl))
verify_chain_iff s (c ∷ []) = (λ h. (cc, h), λ h. h.1)
verify_chain_iff s (p ∷ c ∷ cs) = ground (arith, verify_chain_iff s (c ∷ cs))
