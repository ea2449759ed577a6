-- ===== src/Proxy/Prepared.antt =====
-- What prepareServices of proxy/service.go establishes.
use aperture.Prelude.{
  ℕ, suc, zero, ◌≡◌, ◌≤◌, ◌≢◌, ap, ◌∙◌, true, false, List, [], ◌∷◌, Bytes, Option, none, some,
  Result, ok, ◌>>=◌, >>=-eq-ok, Result-cases, arith, ℤ, pos, negsuc, All,
}
use aperture.Auth.Level.{is_freebie, freebie_count}
use aperture.Proxy.Backend.{
  ProxyService, Regexps, FreebieDb, PriceServer, Pricer, default_pricer, checked_price,
  freebie_store, price_of, check_whitelist, prepare_service, prepare_services, max_service_price,
  header_fields,
}

-- A prepared service: the price of a static one is between one satoshi and the limit, its pricer
-- asks for this price, every expression of the whitelist compiles, and a freebie service has a store.
pub record IsPrepared {D : Type 0} (regexps : Regexps) (s : ProxyService D) : Type 0 where
  pub static :
      s.dynamic_price_enabled ≡ false
      → (n : ℕ) × (s.price ≡ pos (suc n))
        × (suc n ≤ max_service_price)
        × (s.pricer ≡ some (default_pricer s.price))
  pub priced : s.pricer ≢ none
  pub whitelist : All (λ e. regexps.compiles e ≡ true) s.auth_whitelist_paths
  pub counted : is_freebie s.auth ≡ true → s.freebie_db ≢ none

checked_price-range :
    (z p : ℤ) → checked_price z ≡ ok p → (n : ℕ) × (p ≡ pos (suc n)) × (suc n ≤ max_service_price)
unfolding checked_price
checked_price-range (negsuc n) p h = absurd (cc h)
checked_price-range (pos zero) p h = (0, cc, omega arith)
checked_price-range (pos (suc n)) p h = (n, ground arith, ground arith)

whitelist-All :
    (regexps : Regexps) (es : List Bytes)
    → check_whitelist regexps es ≡ ok tt
    → All (λ e. regexps.compiles e ≡ true) es
unfolding check_whitelist
whitelist-All regexps [] h = tt
whitelist-All regexps (e ∷ es) h = (ground arith, whitelist-All regexps es (ground arith))

module _ {D : Type 0} (db : FreebieDb D) (prices : PriceServer) (regexps : Regexps)
    (read_file : Bytes → Result Bytes) where
  price_of-static :
      (s : ProxyService D) (p : ℤ) (pricer : Pricer)
      → price_of db prices regexps read_file s ≡ ok (p, pricer)
      → s.dynamic_price_enabled ≡ false
      → (n : ℕ) × (p ≡ pos (suc n)) × (suc n ≤ max_service_price) × (pricer ≡ default_pricer p)
  unfolding price_of
  price_of-static s p pricer h d =
      let static : ◌>>=◌ {W = ℤ × Pricer} (checked_price s.price)
            (λ price. ok (price, default_pricer price))
          ≡ ok (p, pricer) =
        ground (arith, h, d) in
      let (price, checked, rest) = >>=-eq-ok (checked_price s.price) _ static in
      let same : p ≡ price = ground (arith, rest) in
      let (n, e, l) = checked_price-range s.price price checked in
      (n, same ∙ e, l, ground (arith, rest))

  store-counted :
      (s : ProxyService D) (o : Option D)
      → freebie_store db prices regexps read_file s ≡ ok o
      → is_freebie s.auth ≡ true
      → o ≢ none
  unfolding freebie_store
  store-counted s o h f = ground (arith, h, f, Result-cases (freebie_count s.auth))

  prepare_service-IsPrepared :
      (s p : ProxyService D)
      → prepare_service db prices regexps read_file s ≡ ok p
      → IsPrepared regexps p
  unfolding prepare_service
  prepare_service-IsPrepared s p h =
      let (freebies, e1, h1) = >>=-eq-ok (freebie_store db prices regexps read_file s) _ h in
      let (fields, e2, h2) = >>=-eq-ok (header_fields read_file s.headers) _ h1 in
      let (u, e3, h3) = >>=-eq-ok (check_whitelist regexps s.auth_whitelist_paths) _ h2 in
      let ((price, pricer), e4, h4) = >>=-eq-ok (price_of db prices regexps read_file s) _ h3 in
      let out : p ≡ record s {
        freebie_db = freebies;
        headers = fields;
        price = price;
        pricer = some pricer;
      } =
        cc h4 in
      rw out (record {
        static =
            λ d. (let (n, e, l, q) = price_of-static s price pricer e4 d in (n, e, l, ap some q));
        priced = λ z. cc z;
        whitelist = whitelist-All regexps s.auth_whitelist_paths e3;
        counted = store-counted s freebies e1;
      })

  -- Every service that prepareServices returns is prepared.
  pub prepare_services-All :
      (ss ps : List (ProxyService D))
      → prepare_services db prices regexps read_file ss ≡ ok ps
      → All (IsPrepared regexps) ps
  unfolding prepare_services
  prepare_services-All [] ps h = (let none_left : ps ≡ [] = cc h in rw none_left tt)
  prepare_services-All (s ∷ ss) ps h =
      let (p, e1, h1) = >>=-eq-ok (prepare_service db prices regexps read_file s) _ h in
      let (rest, e2, h2) = >>=-eq-ok (prepare_services db prices regexps read_file ss) _ h1 in
      let out : ps ≡ p ∷ rest = cc h2 in
      rw out (prepare_service-IsPrepared s p e1, prepare_services-All ss rest e2)
