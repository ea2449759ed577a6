-- ===== src/Mint/Price.antt =====
-- The price of an L402 for several services.
use aperture.Prelude.{
  ◌≡◌, refl, ◌⊎◌, inl, List, [], ◌∷◌, All, ℤ, pos, ◌≤ℤ◌, ltb_ℤ, arith, if◌then◌else◌,
}
use aperture.L402.Service.{Service}
use aperture.Mint.{maximum_price_from, maximum_price}

-- Some entry of the list has the property.
abbrev pub Some {ℓ} : {A : Type ℓ} → (A → Type 0) → List A → Type 0
Some P [] = ⊥
Some P (x ∷ xs) = P x ⊎ Some P xs

-- The price is no less than the start and than each service's, and is the start or one of theirs.
pub record IsMaximum (start : ℤ) (ss : List Service) (price : ℤ) : Type 0 where
  pub start_le : start ≤ℤ price
  pub all_le : All (λ s. s.price ≤ℤ price) ss
  pub reached : (price ≡ start) ⊎ Some (λ s. price ≡ s.price) ss

maximum_price_from-IsMaximum :
    (max : ℤ) (ss : List Service) → IsMaximum max ss (maximum_price_from max ss)
unfolding maximum_price_from
maximum_price_from-IsMaximum max [] = record {
  start_le = omega arith;
  all_le = tt;
  reached = inl refl;
}
maximum_price_from-IsMaximum max (s ∷ ss) =
    let next = if ltb_ℤ max s.price then s.price else max in
    let m = maximum_price_from-IsMaximum next ss in
    record {
      start_le = ground (arith, m.start_le);
      all_le = (ground (arith, m.start_le), m.all_le);
      reached = ground (arith, m.reached);
    }

-- The price of an L402 is zero or one of the services' prices, at least zero, and no less than the
-- price of any service.
pub maximum_price-IsMaximum : (ss : List Service) → IsMaximum (pos 0) ss (maximum_price ss)
unfolding maximum_price
maximum_price-IsMaximum ss = maximum_price_from-IsMaximum (pos 0) ss
