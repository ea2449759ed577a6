-- ===== src/Proxy/Total.antt =====
-- The panics of proxy/proxy.go: expressions that do not compile, and services without a pricer or
-- a freebie store.
use aperture.Prelude.{ℕ, ◌≡◌, true, false, [], bytes_eq, Option, none, some, Result, ok}
use aperture.Proxy.Backend.{ProxyService, Regexps}
use aperture.Proxy.Prepared.{IsPrepared}

module _ {D : Type 0} (regexps : Regexps) where
  -- A prepared service whose expressions for host and path compile.
  pub record IsReady (s : ProxyService D) : Type 0 where
    pub prepared : IsPrepared regexps s
    pub host : regexps.compiles s.host_regexp ≡ true
    pub path : bytes_eq s.path_regexp [] ≡ false → regexps.compiles s.path_regexp ≡ true

  -- No panic, and what is found is ready.
  data IsFound (r : Result (Option (ℕ × ProxyService D))) : Type 0 where
    found_none : r ≡ ok none → IsFound r
    found_some : (n : ℕ) (s : ProxyService D) → r ≡ ok (some (n, s)) → IsReady s → IsFound r
