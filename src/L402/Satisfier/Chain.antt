-- ===== src/L402/Satisfier/Chain.antt =====
-- What an attenuating chain hands back from its last caveat to all before it.
use aperture.Prelude.{
  Bool, true, subst, ◌≡◌, List, [], ◌∷◌, All, ok, Bytes, In, contains_iff, guard, fail, arith, refl,
  inl, inr, ◌↔◌,
}
use aperture.L402.Caveat.{Caveat, Satisfier}
use aperture.L402.Caveat.Grouping.{Attenuates}
use aperture.L402.Satisfier.{none_new}

module _ {ℓ} (s : Satisfier) (Grants : Caveat → Type ℓ)
    (last : (c : Caveat) → s.satisfy_final c ≡ ok tt → Grants c)
    (back : (p c : Caveat) → s.satisfy_previous p c ≡ ok tt → Grants c → Grants p) where
  -- If a step back keeps a grant and the last check gives it, every caveat grants.
  pub Attenuates-All : (cs : List Caveat) → Attenuates s cs → All Grants cs
  Attenuates-All [] h = tt
  Attenuates-All (c ∷ []) h = (last c h, tt)
  Attenuates-All (p ∷ c ∷ cs) h =
      let rest = Attenuates-All (c ∷ cs) h.1 in (back p c h.0 rest.0, rest)

pub guard-eq-ok_iff : (b : Bool) → (guard b fail ≡ ok tt) ↔ (b ≡ true)
guard-eq-ok_iff b = ground arith

-- Nothing is new exactly when every current entry was allowed.
pub none_new_iff :
    (allowed ns : List Bytes) → (none_new allowed ns ≡ ok tt) ↔ All (λ n. In n allowed) ns
unfolding none_new
none_new_iff allowed [] = (λ h. tt, λ h. refl)
none_new_iff allowed (n ∷ ns) = ground (arith, contains_iff allowed n, none_new_iff allowed ns)

pub In-All :
    (allowed ns : List Bytes) (a : Bytes) → All (λ n. In n allowed) ns → In a ns → In a allowed
In-All allowed [] a h m = absurd m
In-All allowed (n ∷ ns) a h (inl e) = subst (λ x. In x allowed) e h.0
In-All allowed (n ∷ ns) a h (inr m) = In-All allowed ns a h.1 m
