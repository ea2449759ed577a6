-- ===== src/L402/Caveat/Authorized.antt =====
-- VerifyCaveats decides a condition that names no map and no order of iteration.
use mathlib.Core.List.{Perm}
use mathlib.Core.List.Perm
use aperture.Prelude.{
  ◌≡◌, sym, ap, ◌∙◌, subst, ◌≢◌, ◌↔◌, inl, inr, none, some, List, [], Bytes, All, ok,
  Result_unit-set, Option-cases, arith,
}
use aperture.Go.Maps.{lookup, All-of_lookup, lookup-All, All-perm}
use aperture.L402.Caveat.{
  Caveat, Satisfier, Chains, chain_at, caveat_satisfiers, relevant_caveats, verify_entry,
  verify_caveats,
}
use aperture.L402.Caveat.Grouping.{
  satisfier_for, chain_of, Attenuates, IsAuthorized, lookup-caveat_satisfiers, chain_at-relevant,
  lookup-relevant_none, relevant-IsMap, relevant-IsFull, verify_chains_iff, verify_chain_iff,
}

module _ (caveats : List Caveat) (satisfiers : List Satisfier) where
  abbrev sats : List (Bytes × Satisfier)
  sats = caveat_satisfiers [] satisfiers

  abbrev chains : Chains
  chains = relevant_caveats sats [] caveats

  lookup-sats : (k : Bytes) → lookup k sats ≡ satisfier_for k satisfiers
  unfolding lookup
  lookup-sats k = ground (arith, lookup-caveat_satisfiers k [] satisfiers)

  chain_at-chains :
      (k : Bytes) (s : Satisfier) → lookup k sats ≡ some s → chain_at k chains ≡ chain_of k caveats
  unfolding lookup
  chain_at-chains k s e = chain_at-relevant sats k s [] caveats e

  entry-Attenuates :
      (k : Bytes) (s : Satisfier) (l : List Caveat)
      → lookup k sats ≡ some s
      → verify_entry sats (k, l) ≡ ok tt
      → Attenuates s l
  unfolding verify_entry
  entry-Attenuates k s l e h = ((verify_chain_iff s l).0 (ground arith)).1

  All-IsAuthorized : All (λ e. verify_entry sats e ≡ ok tt) chains → IsAuthorized satisfiers caveats
  All-IsAuthorized h k s e =
      let e' = lookup-sats k ∙ e in
      let p = chain_at-chains k s e' in
      elim (Option-cases (lookup k chains)) [
        | inl n ↦
            let q : ◌≡◌ {A = List Caveat} [] (chain_of k caveats) = ground arith in
            subst (Attenuates s) q tt
        | inr (l, f) ↦
            let q : l ≡ chain_of k caveats = ground arith in
            subst (Attenuates s) q (
              entry-Attenuates k s l e'
                (lookup-All (λ e. verify_entry sats e ≡ ok tt) chains k l h f))
      ]

  chain-IsFull : (k : Bytes) → lookup k chains ≢ some []
  chain-IsFull = relevant-IsFull sats [] caveats empty
    where
      empty : (k : Bytes) → lookup {V = List Caveat} k [] ≢ some []
      empty k = unfold lookup in cc

  lookup-chains-none : (k : Bytes) → lookup k sats ≡ none → lookup k chains ≡ none
  unfolding lookup
  lookup-chains-none k e = lookup-relevant_none sats k [] caveats e

  IsAuthorized-entry :
      IsAuthorized satisfiers caveats
      → (k : Bytes) (l : List Caveat) → lookup k chains ≡ some l
      → verify_entry sats (k, l) ≡ ok tt
  unfolding verify_entry
  IsAuthorized-entry h k l f = elim (Option-cases (lookup k sats)) [
    | inl n ↦ absurd (ground (arith, lookup-chains-none k n))
    | inr (s, e) ↦
        let p : chain_of k caveats ≡ l = ground (arith, chain_at-chains k s e) in
        let full : l ≢ [] = λ q. chain-IsFull k (f ∙ ap some q) in
        let a = subst (Attenuates s) p (h k s (sym (lookup-sats k) ∙ e)) in
        let done = (verify_chain_iff s l).1 (full, a) in ground arith
  ]

  entries_iff : All (λ e. verify_entry sats e ≡ ok tt) chains ↔ IsAuthorized satisfiers caveats
  entries_iff = (
    All-IsAuthorized,
    λ h.
        All-of_lookup (λ e. verify_entry sats e ≡ ok tt) chains (relevant-IsMap sats [] caveats tt)
          (IsAuthorized-entry h),
  )

-- Verification succeeds exactly when, for every condition, the satisfier that was given last for
-- it accepts each caveat of that condition after the one before it and accepts the last one, in
-- whatever order the map is ranged over.
pub verify_caveats_iff :
    (visit : Chains → Chains)
    → ((m : Chains) → Perm (visit m) m)
    → (caveats : List Caveat) (satisfiers : List Satisfier)
    → (verify_caveats visit caveats satisfiers ≡ ok tt) ↔ IsAuthorized satisfiers caveats
unfolding verify_caveats
verify_caveats_iff visit perm caveats satisfiers =
    let sats = caveat_satisfiers [] satisfiers in
    let chains = relevant_caveats sats [] caveats in
    let (run_all, all_run) = verify_chains_iff sats (visit chains) in
    let (to, from) = entries_iff caveats satisfiers in
    let prop = λ (e : Bytes × List Caveat). Result_unit-set (verify_entry sats e) (ok tt) in
    (
      λ h. to (All-perm _ prop (Perm.symm (perm chains)) (run_all h)),
      λ h. all_run (All-perm _ prop (perm chains) (from h)),
    )
