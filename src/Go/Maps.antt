-- ===== src/Go/Maps.antt =====
-- Go's map[string]V as an association list with distinct keys. `range` visits the entries in an
-- order that the language leaves open, so the code that ranges over a map takes the order as an
-- argument.
use mathlib.Core.List.{Mem, Perm, mem-cons, mem-cons_self, mem-cons_of_mem, not-mem-nil}
use mathlib.Core.List.Perm
use mathlib.Core.Logic.Or
use aperture.Prelude.{
  ◌≡◌, refl, subst, Option, none, some, List, [], ◌∷◌, arith, if◌then◌else◌, Bytes, bytes_eq,
  bytes_eq_iff, bytes_eq_refl, All, Bool-cases, inl, inr,
}

module _ {ℓ} {V : Type ℓ} where
  -- v, ok := m[k]
  unfoldable pub lookup : Bytes → List (Bytes × V) → Option V
  lookup k [] = none
  lookup k ((j, v) ∷ m) = if bytes_eq j k then some v else lookup k m

  -- m[k] = v
  unfoldable pub put : Bytes → V → List (Bytes × V) → List (Bytes × V)
  put k v [] = (k, v) ∷ []
  put k v ((j, w) ∷ m) = if bytes_eq j k then (j, v) ∷ m else (j, w) ∷ put k v m

  -- delete(m, k)
  unfoldable pub delete : Bytes → List (Bytes × V) → List (Bytes × V)
  delete k [] = []
  delete k ((j, w) ∷ m) = let rest = delete k m in if bytes_eq j k then rest else (j, w) ∷ rest

  pub lookup-put :
      (k j : Bytes) (v : V) (m : List (Bytes × V))
      → lookup j (put k v m) ≡ (if bytes_eq k j then some v else lookup j m)
  unfolding lookup put
  lookup-put k j v [] = refl
  lookup-put k j v ((i, w) ∷ m) =
      ground (arith, bytes_eq_iff k j, bytes_eq_iff i k, bytes_eq_iff i j, lookup-put k j v m)

  pub lookup-delete :
      (k j : Bytes) (m : List (Bytes × V))
      → lookup j (delete k m) ≡ (if bytes_eq k j then none else lookup j m)
  unfolding lookup delete
  lookup-delete k j [] = ground arith
  lookup-delete k j ((i, w) ∷ m) =
      ground (arith, bytes_eq_iff k j, bytes_eq_iff i k, bytes_eq_iff i j, lookup-delete k j m)

  -- No two entries have the same key.
  abbrev pub IsMap : List (Bytes × V) → Type ℓ
  IsMap [] = Unit
  IsMap ((k, v) ∷ m) = (lookup k m ≡ none) × IsMap m

  pub put-IsMap : (k : Bytes) (v : V) (m : List (Bytes × V)) → IsMap m → IsMap (put k v m)
  unfolding put
  put-IsMap k v [] h = (unfold lookup in refl, tt)
  put-IsMap k v ((j, w) ∷ m) h =
      ground (arith, bytes_eq_iff j k, bytes_eq_iff k j, lookup-put k j v m, put-IsMap k v m)

  pub delete-IsMap : (k : Bytes) (m : List (Bytes × V)) → IsMap m → IsMap (delete k m)
  unfolding delete
  delete-IsMap k [] h = tt
  delete-IsMap k ((j, w) ∷ m) h = elim (Bool-cases (bytes_eq j k)) [
    | inl e ↦ rw e (delete-IsMap k m h.1)
    | inr n ↦ rw n (ground (arith, lookup-delete k j m, h.0), delete-IsMap k m h.1)
  ]

  -- In a map, the entries visited by `range` are those that a lookup finds.
  pub All-of_lookup {κ} :
      (P : Bytes × V → Type κ) (m : List (Bytes × V))
      → IsMap m
      → ((k : Bytes) (v : V) → lookup k m ≡ some v → P (k, v))
      → All P m
  unfolding lookup
  All-of_lookup P [] h f = tt
  All-of_lookup P ((k, v) ∷ m) h f =
      (f k v (rw (bytes_eq_refl k)), All-of_lookup P m h.1 (λ j w e. f j w (later j w e)))
    where
      later : (j : Bytes) (w : V) → lookup j m ≡ some w → lookup j ((k, v) ∷ m) ≡ some w
      later j w e = ground (arith, bytes_eq_iff k j, h.0)

  pub lookup-All {κ} :
      (P : Bytes × V → Type κ) (m : List (Bytes × V)) (k : Bytes) (v : V)
      → All P m
      → lookup k m ≡ some v
      → P (k, v)
  unfolding lookup
  lookup-All P [] k v h e = absurd (cc)
  lookup-All P ((j, w) ∷ m) k v h e = elim (Bool-cases (bytes_eq j k)) [
    | inl same ↦
        let p : ◌≡◌ {A = Bytes × V} (j, w) (k, v) = ground (arith, bytes_eq_iff j k) in
        subst P p h.0
    | inr other ↦ lookup-All P m k v h.1 (ground arith)
  ]

module _ {ℓ κ} {A : Type ℓ} (P : A → Type κ) where
  All-of_mem : (xs : List A) → ((a : A) → Mem a xs → P a) → All P xs
  All-of_mem [] f = tt
  All-of_mem (x ∷ xs) f = (f x mem-cons_self, All-of_mem xs (λ a m. f a (mem-cons_of_mem x m)))

  mem-All : ((a : A) → IsProp (P a)) → (a : A) (xs : List A) → All P xs → Mem a xs → P a
  mem-All prop a [] h m = absurd (not-mem-nil m)
  mem-All prop a (x ∷ xs) h m =
      Or.elim (prop a) (mem-cons.0 m) (λ e. rw e (h.0)) (mem-All prop a xs h.1)

  -- What holds of every entry does so in any order of visit.
  pub All-perm : ((a : A) → IsProp (P a)) → {xs ys : List A} → Perm xs ys → All P ys → All P xs
  All-perm prop {xs} {ys} p h = All-of_mem xs (λ a m. mem-All prop a ys h ((Perm.mem_iff p).0 m))
