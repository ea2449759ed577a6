-- ===== src/L402/Satisfier/Capabilities.antt =====
-- The capabilities satisfier: what a chain of capabilities caveats grants.
use aperture.Prelude.{◌≡◌, ◌↔◌, List, All, Bytes, In, contains_iff, ok}
use aperture.Go.Strings.{split}
use aperture.L402.Caveat.{Caveat}
use aperture.L402.Caveat.Grouping.{Attenuates}
use aperture.L402.Satisfier.{capabilities_previous, capabilities_final, new_capabilities_satisfier}
use aperture.L402.Satisfier.Chain.{Attenuates-All, guard-eq-ok_iff, none_new_iff, In-All}

-- The target is one of the comma-separated capabilities.
abbrev pub GrantsCapability : Bytes → Caveat → Type 0
GrantsCapability target c = In target (split b',' c.value)

capabilities_final_iff :
    (target : Bytes) (c : Caveat)
    → (capabilities_final target c ≡ ok tt) ↔ GrantsCapability target c
unfolding capabilities_final
capabilities_final_iff target c = (
  λ h. (contains_iff (split b',' c.value) target).0 ((guard-eq-ok_iff _).0 h),
  λ h. (guard-eq-ok_iff _).1 ((contains_iff (split b',' c.value) target).1 h),
)

capabilities_back :
    (target : Bytes) (p c : Caveat)
    → capabilities_previous p c ≡ ok tt
    → GrantsCapability target c
    → GrantsCapability target p
unfolding capabilities_previous
capabilities_back target p c h m =
    In-All (split b',' p.value) (split b',' c.value) target ((none_new_iff _ _).0 h) m

-- A chain of capabilities caveats that is accepted for a target lists the target in every caveat.
pub capabilities-Attenuates-All :
    (service target : Bytes) (cs : List Caveat)
    → Attenuates (new_capabilities_satisfier service target) cs
    → All (GrantsCapability target) cs
capabilities-Attenuates-All service target cs h =
    Attenuates-All (new_capabilities_satisfier service target) (GrantsCapability target)
      (λ c. (capabilities_final_iff target c).0) (capabilities_back target) cs h
