-- ===== src/L402/Satisfier/Services.antt =====
-- The services satisfier: what a chain of services caveats grants.
use aperture.Prelude.{
  ◌≡◌, ◌↔◌, List, All, Bytes, In, contains, contains_iff, Result, ok, ◌>>=◌, >>=-eq-ok, guard, fail,
  subst,
}
use aperture.L402.Service.{Service, decode_services_caveat_value}
use aperture.L402.Caveat.{Caveat}
use aperture.L402.Caveat.Grouping.{Attenuates}
use aperture.L402.Satisfier.{
  names, none_new, services_previous, services_final, new_services_satisfier,
}
use aperture.L402.Satisfier.Chain.{Attenuates-All, guard-eq-ok_iff, none_new_iff, In-All}

-- The caveat is a list of services with the target among them.
abbrev pub GrantsService : Bytes → Caveat → Type 0
GrantsService target c =
    (ss : List Service) × (decode_services_caveat_value c.value ≡ ok ss) × In target (names ss)

-- Both caveats are lists of services, and the current one names none that the previous does not.
abbrev pub NarrowsServices : Caveat → Caveat → Type 0
NarrowsServices prev cur =
    (ps cs : List Service) × (decode_services_caveat_value prev.value ≡ ok ps)
    × (decode_services_caveat_value cur.value ≡ ok cs)
    × All (λ n. In n (names ps)) (names cs)

-- The check of the last caveat passes exactly when it grants the target.
pub services_final_iff :
    (target : Bytes) (c : Caveat) → (services_final target c ≡ ok tt) ↔ GrantsService target c
unfolding services_final
services_final_iff target c = (to, from)
  where
    to :
        (decode_services_caveat_value c.value >>= λ ss. guard (contains (names ss) target) fail)
          ≡ ok tt
        → GrantsService target c
    to h =
        let (ss, e, g) = >>=-eq-ok (decode_services_caveat_value c.value) _ h in
        (ss, e, (contains_iff (names ss) target).0 ((guard-eq-ok_iff _).0 g))

    from :
        GrantsService target c
        → (decode_services_caveat_value c.value >>= λ ss. guard (contains (names ss) target) fail)
          ≡ ok tt
    from (ss, e, m) = rw e ((guard-eq-ok_iff _).1 ((contains_iff (names ss) target).1 m))

-- The check of a caveat against the one before it passes exactly when it narrows it.
pub services_previous_iff :
    (prev cur : Caveat) → (services_previous prev cur ≡ ok tt) ↔ NarrowsServices prev cur
unfolding services_previous
services_previous_iff prev cur = (to, from)
  where
    check : Result (Unit {0})
    check = do
      ps ← decode_services_caveat_value prev.value
      cs ← decode_services_caveat_value cur.value
      none_new (names ps) (names cs)

    to : check ≡ ok tt → NarrowsServices prev cur
    to h =
        let (ps, e, h') = >>=-eq-ok (decode_services_caveat_value prev.value) _ h in
        let (cs, e', g) = >>=-eq-ok (decode_services_caveat_value cur.value) _ h' in
        (ps, cs, e, e', (none_new_iff (names ps) (names cs)).0 g)

    from : NarrowsServices prev cur → check ≡ ok tt
    from (ps, cs, e, e', a) = rw (e, e') ((none_new_iff (names ps) (names cs)).1 a)

services_back :
    (target : Bytes) (p c : Caveat)
    → services_previous p c ≡ ok tt
    → GrantsService target c
    → GrantsService target p
services_back target p c h (ss, e, m) =
    let (ps, cs, ep, ec, a) = (services_previous_iff p c).0 h in
    let same : ss ≡ cs = cc in
    (ps, ep, In-All (names ps) (names cs) target a (subst (λ l. In target (names l)) same m))

-- A chain of services caveats that is accepted for a target grants the target in every caveat, so
-- that a caveat that is added later takes services away and adds none.
pub services-Attenuates-All :
    (target : Bytes) (cs : List Caveat)
    → Attenuates (new_services_satisfier target) cs
    → All (GrantsService target) cs
services-Attenuates-All target cs h =
    Attenuates-All (new_services_satisfier target) (GrantsService target)
      (λ c. (services_final_iff target c).0) (services_back target) cs h
