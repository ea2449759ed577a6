-- ===== src/Freebie/Limit.antt =====
-- How many requests freebie/mem_store.go lets pass.
use aperture.Prelude.{
  ap, ◌∙◌, ℕ, suc, ◌+◌, ◌-◌, ◌%◌, ◌^◌, ◌≤◌, ◌<◌, ◌≡◌, refl, true, List, [], ◌∷◌, if◌then◌else◌,
  Bytes, bytes_eq, bytes_eq_iff, ltb, arith, Bool-cases, inl, inr, none, some, ok, err, false,
}
use aperture.Go.Maps.{lookup, lookup-put}
use aperture.Freebie.{MemStore, get_key, current_count, can_pass, tally_freebie}

-- How many requests with the key pass, of requests from the addresses in order: each asks CanPass,
-- and is tallied by TallyFreebie if it may pass.
unfoldable pub passes : Bytes → MemStore → List Bytes → ℕ
unfolding can_pass
passes key m [] = 0
passes key m (ip ∷ ips) =
    let after = passes key (tally_freebie m ip).1 ips in
    let same = passes key m ips in
    elim (can_pass m ip) [
      | err e ↦ same
      | ok true ↦ if bytes_eq (get_key ip) key then suc after else after
      | ok false ↦ same
    ]

abbrev pub requests : Bytes → List Bytes → ℕ
requests key [] = 0
requests key (ip ∷ ips) =
    let rest = requests key ips in if bytes_eq (get_key ip) key then suc rest else rest

abbrev pub min : ℕ → ℕ → ℕ
min a b = if ltb a b then a else b

abbrev pub count_of : Bytes → MemStore → ℕ
count_of key m = elim (lookup key m.freebie_counter) [ none ↦ 0 | some n ↦ n ]

count-tally :
    (m : MemStore) (ip key : Bytes)
    → count_of key (tally_freebie m ip).1
      ≡ (if bytes_eq (get_key ip) key then (current_count m ip + 1) % 2 ^ 16 else count_of key m)
unfolding tally_freebie
count-tally m ip key =
    ground
      (arith, lookup-put (get_key ip) key ((current_count m ip + 1) % 2 ^ 16) m.freebie_counter)

num-tally : (m : MemStore) (ip : Bytes) → (tally_freebie m ip).1.num_freebies ≡ m.num_freebies
unfolding tally_freebie
num-tally m ip = refl

free_lt : (a b : ℕ) → ltb a b ≡ true → a < b
free_lt a b h = ground arith

-- Of the requests whose addresses have one key, whatever others come between them, CanPass lets
-- exactly as many pass as there are free requests left for the key, and all of them if there are fewer requests.
-- The number of free requests is a uint16 and no count is above it.
pub passes-min :
    (key : Bytes) (m : MemStore) (ips : List Bytes)
    → m.num_freebies < 2 ^ 16
    → count_of key m ≤ m.num_freebies
    → passes key m ips ≡ min (m.num_freebies - count_of key m) (requests key ips)
unfolding passes can_pass current_count
passes-min key m [] h k = ground arith
passes-min key m (ip ∷ ips) h k =
    let counted : current_count m ip ≡ count_of (get_key ip) m = unfold current_count in refl in
    let kept = num-tally m ip in
    let tallied = count-tally m ip key in
    elim (Bool-cases (ltb (current_count m ip) m.num_freebies)) [
      | inl free ↦ elim (Bool-cases (bytes_eq (get_key ip) key)) [
        | inl same ↦
            let e : get_key ip ≡ key = (bytes_eq_iff (get_key ip) key).0 same in
            let now : current_count m ip ≡ count_of key m = counted ∙ ap (λ x. count_of x m) e in
            let next : count_of key (tally_freebie m ip).1 ≡ count_of key m + 1 =
              tallied
              ∙ (rw same
                  (omega (arith, now, h, free_lt (current_count m ip) m.num_freebies free))) in
            let rest =
              passes-min key (tally_freebie m ip).1 ips (omega (arith, kept, h)) (
                omega (arith, kept, next, now, free_lt (current_count m ip) m.num_freebies free)) in
            ground (arith, rest, same, free, next, now, kept)
        | inr other ↦
            let next : count_of key (tally_freebie m ip).1 ≡ count_of key m =
              tallied ∙ rw other refl in
            let rest =
              passes-min key (tally_freebie m ip).1 ips (omega (arith, kept, h))
                (omega (arith, kept, next, k)) in
            ground (arith, rest, other, free, next, kept)
      ]
      | inr full ↦
          let rest = passes-min key m ips h k in
          elim (Bool-cases (bytes_eq (get_key ip) key)) [
            | inl same ↦
                let e : get_key ip ≡ key = (bytes_eq_iff (get_key ip) key).0 same in
                let now : current_count m ip ≡ count_of key m =
                  counted ∙ ap (λ x. count_of x m) e in
                ground (arith, rest, full, now)
            | inr other ↦ ground (arith, rest, full, other)
          ]
    ]
