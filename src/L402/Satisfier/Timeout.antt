-- ===== src/L402/Satisfier/Timeout.antt =====
-- The timeout satisfier: what a chain of timeout caveats says of the time.
use aperture.Prelude.{
  ◌≡◌, ◌↔◌, true, false, List, All, Bytes, Result, ok, ◌>>=◌, >>=-eq-ok, guard, fail, ℤ, arith,
}
use aperture.Go.Strconv.{parse_int}
use aperture.Go.Time.{Time, time_unix, before, before_trans}
use aperture.L402.Caveat.{Caveat}
use aperture.L402.Caveat.Grouping.{Attenuates}
use aperture.L402.Satisfier.{timeout_previous, timeout_final, new_timeout_satisfier}
use aperture.L402.Satisfier.Chain.{Attenuates-All, guard-eq-ok_iff}

-- The caveat is a Unix time that `now` comes before.
abbrev pub ExpiresAfter : Time → Caveat → Type 0
ExpiresAfter now c = (z : ℤ) × (parse_int c.value ≡ ok z) × (before now (time_unix z) ≡ true)

pub timeout_final_iff :
    (now : Time) (c : Caveat) → (timeout_final now c ≡ ok tt) ↔ ExpiresAfter now c
unfolding timeout_final
timeout_final_iff now c = (to, from)
  where
    check : Result (Unit {0})
    check = do z ← parse_int c.value; guard (before now (time_unix z)) fail

    to : check ≡ ok tt → ExpiresAfter now c
    to h = let (z, e, g) = >>=-eq-ok (parse_int c.value) _ h in (z, e, (guard-eq-ok_iff _).0 g)

    from : ExpiresAfter now c → check ≡ ok tt
    from (z, e, b) = rw e ((guard-eq-ok_iff _).1 b)

timeout_back :
    (now : Time) (p c : Caveat)
    → timeout_previous p c ≡ ok tt
    → ExpiresAfter now c
    → ExpiresAfter now p
unfolding timeout_previous
timeout_back now p c h (z, e, b) =
    let (prev, ep, h') = >>=-eq-ok (parse_int p.value) _ h in
    let (cur, ec, g) = >>=-eq-ok (parse_int c.value) _ h' in
    let same : z ≡ cur = cc in
    let late : before (time_unix prev) (time_unix z) ≡ false = ground arith in
    (prev, ep, before_trans now (time_unix z) (time_unix prev) b late)

-- A chain of timeout caveats that is accepted at a time holds only Unix times that come later, so
-- that no caveat that is added can put the expiry off.
pub timeout-Attenuates-All :
    (service : Bytes) (now : Time) (cs : List Caveat)
    → Attenuates (new_timeout_satisfier service now) cs
    → All (ExpiresAfter now) cs
timeout-Attenuates-All service now cs h =
    Attenuates-All (new_timeout_satisfier service now) (ExpiresAfter now)
      (λ c. (timeout_final_iff now c).0) (timeout_back now) cs h
