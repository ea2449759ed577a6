-- ===== src/Freebie.antt =====
-- freebie/mem_store.go: free requests counted per masked address.
pub mod Limit
use aperture.Prelude.{
  ℕ, ◌+◌, ◌*◌, ◌-◌, ◌/◌, ◌%◌, ◌^◌, ◌≡◌, Bool, true, false, ◌&&◌, List, [], ◌∷◌, ◌++◌, if◌then◌else◌,
  Bytes, codes, bytes_eq, length, take, drop, replicate, ltb, ◌==◌, Option, none, some, Result, ok,
  err,
}
use aperture.Go.Maps.{lookup, put}
use aperture.Go.Strconv.{format_uint}
use aperture.Go.Strings.{join}

-- The bytes before an IPv4 address in its IPv6 form.
abbrev v4_in_v6_prefix : Bytes
v4_in_v6_prefix = replicate 10 0 ++ 255 ∷ 255 ∷ []

-- ip.Mask of 255.255.255.0; a mask of four bytes fits no other address, which gives nil.
unfoldable pub mask_ip : Bytes → Option Bytes
mask_ip ip =
    let short =
      if length ip == 16 && bytes_eq (take 12 ip) v4_in_v6_prefix then drop 12 ip else ip in
    elim short [ a ∷ b ∷ c ∷ d ∷ [] ↦ some (a ∷ b ∷ c ∷ 0 ∷ []) | _ ↦ none ]

abbrev dotted : Bytes → List Bytes
dotted [] = []
dotted (b ∷ bs) = format_uint b ∷ dotted bs

-- getKey
unfoldable pub get_key : Bytes → Bytes
unfolding mask_ip
get_key ip = elim (mask_ip ip) [ none ↦ codes "<nil>" | some m ↦ join b'.' (dotted m) ]

-- memStore; a Count is a uint16
pub record MemStore : Type 0 where
  pub num_freebies : ℕ
  pub freebie_counter : List (Bytes × ℕ)

unfoldable pub current_count : MemStore → Bytes → ℕ
current_count m ip = elim (lookup (get_key ip) m.freebie_counter) [ none ↦ 0 | some n ↦ n ]

-- CanPass
unfoldable pub can_pass : MemStore → Bytes → Result Bool
unfolding current_count
can_pass m ip = ok (ltb (current_count m ip) m.num_freebies)

-- TallyFreebie: the sum wraps around at 16 bits.
unfoldable pub tally_freebie : MemStore → Bytes → Result Bool × MemStore
unfolding current_count
tally_freebie m ip =
    let counter = (current_count m ip + 1) % 2 ^ 16 in
    (ok true, record m { freebie_counter = put (get_key ip) counter m.freebie_counter })

-- NewMemIPMaskStore
abbrev pub new_mem_ip_mask_store : ℕ → MemStore
new_mem_ip_mask_store n = record { num_freebies = n; freebie_counter = [] }
