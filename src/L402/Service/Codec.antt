-- ===== src/L402/Service/Codec.antt =====
-- The services caveat's value and the services that it is read as.
use mathlib.Core.List.{append_assoc}
use aperture.Prelude.{
  ℕ, ◌<◌, ◌≡◌, refl, ap, ◌∙◌, ◌≢◌, ◌↔◌, List, [], ◌∷◌, ◌++◌, map, Bytes, bytes_eq, bytes_eq_iff,
  Lacks, Lacks-append, All, ok, guard, not, fail, >>=-eq-ok, pos, arith, inl, inr,
}
use aperture.Go.Strings.{split, join, split-join, split-append, split-Lacks}
use aperture.Go.Strconv.{
  format_uint, parse_int, format_int, parse_int-format_int, format_uint-Lacks,
}
use aperture.L402.Service.{
  Service, service_entry, write_services, encode_services_caveat_value, service_of_parts,
  read_services, decode_services_caveat_value,
}

-- A service whose name can stand in a caveat, with a tier in range.
pub record IsPlain (s : Service) : Type 0 where
  pub no_comma : Lacks b',' s.name
  pub no_colon : Lacks b':' s.name
  pub in_range : s.tier < 256

-- The caveat does not carry the price.
abbrev pub unpriced : Service → Service
unpriced s = record s { price = pos 0 }

parse_tier : (n : ℕ) → n < 256 → parse_int (format_uint n) ≡ ok (pos n)
parse_tier n h = let e = parse_int-format_int (pos n) (omega arith) in unfold format_int in e

split_entry :
    (s : Service) → IsPlain s → split b':' (service_entry s) ≡ s.name ∷ format_uint s.tier ∷ []
unfolding service_entry
split_entry s p =
    split-append b':' s.name (format_uint s.tier) p.no_colon
    ∙ ap (◌∷◌ s.name)
        (split-Lacks b':' (format_uint s.tier) (format_uint-Lacks b':' s.tier (inr (omega arith))))

read_entry :
    (s : Service)
    → s.name ≢ []
    → IsPlain s
    → service_of_parts (split b':' (service_entry s)) ≡ ok (unpriced s)
unfolding service_of_parts
read_entry s named p =
    rw (split_entry s p)
      (ground (arith, bytes_eq_iff s.name [], parse_tier s.tier p.in_range, p.in_range))

entry-Lacks : (s : Service) → IsPlain s → Lacks b',' (service_entry s)
unfolding service_entry
entry-Lacks s p =
    Lacks-append b',' s.name (b':' ∷ format_uint s.tier) p.no_comma
      (omega arith, format_uint-Lacks b',' s.tier (inl (omega arith)))

write-join :
    (ss : List Service) (v : Bytes)
    → write_services ss ≡ ok v
    → (v ≡ join b',' (map service_entry ss)) × All (λ s. s.name ≢ []) ss
unfolding write_services join
write-join [] v e = ground arith
write-join (s ∷ []) v e = ground (arith, bytes_eq_iff s.name [])
write-join (s ∷ t ∷ ss) v e =
    let (u, named, e') = >>=-eq-ok (guard (not (bytes_eq s.name [])) fail) _ e in
    let (w, written, e'') = >>=-eq-ok (write_services (t ∷ ss)) _ e' in
    let (joined, rest) = write-join (t ∷ ss) w written in
    (ground arith, (ground (arith, bytes_eq_iff s.name []), rest))

read-entries :
    (ss : List Service)
    → All (λ s. s.name ≢ []) ss
    → All IsPlain ss
    → read_services (map service_entry ss) ≡ ok (map unpriced ss)
unfolding read_services
read-entries [] n p = refl
read-entries (s ∷ ss) n p = rw (read_entry s n.0 p.0, read-entries ss n.1 p.1)

entry-ne-nil : (s : Service) → service_entry s ≢ []
unfolding service_entry
entry-ne-nil s e = after s.name e
  where
    after : (n : Bytes) → n ++ b':' ∷ format_uint s.tier ≢ []
    after [] h = cc
    after (c ∷ n) h = cc

decode_of_split :
    (v : Bytes) (e : Bytes) (es : List Bytes)
    → split b',' v ≡ e ∷ es
    → e ≢ []
    → decode_services_caveat_value v ≡ read_services (e ∷ es)
unfolding decode_services_caveat_value
decode_of_split [] e es h k = absurd (k (unfold split in ground arith))
decode_of_split (c ∷ v) e es h k = ap read_services h

-- What the entries joined by commas are decoded to.
decode-join :
    (s : Service) (ss : List Service)
    → All (λ s. s.name ≢ []) (s ∷ ss)
    → All IsPlain (s ∷ ss)
    → decode_services_caveat_value (join b',' (map service_entry (s ∷ ss)))
      ≡ ok (map unpriced (s ∷ ss))
decode-join s ss named p =
    decode_of_split _ _ _
      (split-join b',' (service_entry s) (map service_entry ss) (entry-Lacks s p.0)
        (entries-Lacks ss p.1))
      (entry-ne-nil s)
    ∙ read-entries (s ∷ ss) named p
  where
    entries-Lacks : (ss : List Service) → All IsPlain ss → All (Lacks b',') (map service_entry ss)
    entries-Lacks [] p = tt
    entries-Lacks (s ∷ ss) p = (entry-Lacks s p.0, entries-Lacks ss p.1)

-- What is encoded for services whose names hold no comma and no colon, with tiers below 256, is
-- decoded to the same services without their prices.
pub decode-encode_services :
    (ss : List Service) (v : Bytes)
    → All IsPlain ss
    → encode_services_caveat_value ss ≡ ok v
    → decode_services_caveat_value v ≡ ok (map unpriced ss)
unfolding encode_services_caveat_value
decode-encode_services [] v p e = absurd (cc)
decode-encode_services (s ∷ ss) v p e =
    let (joined, named) = write-join (s ∷ ss) v e in rw joined (decode-join s ss named p)

write_services-named :
    (ss : List Service)
    → All (λ s. s.name ≢ []) ss
    → write_services ss ≡ ok (join b',' (map service_entry ss))
unfolding write_services join
write_services-named [] h = refl
write_services-named (s ∷ []) h = ground (arith, bytes_eq_iff s.name [])
write_services-named (s ∷ t ∷ ss) h =
    ground (arith, bytes_eq_iff s.name [], write_services-named (t ∷ ss) h.1)

-- Encoding succeeds exactly when there is a service and every service has a name.
pub encode-eq-ok_iff :
    (ss : List Service)
    → ((v : Bytes) × (encode_services_caveat_value ss ≡ ok v))
      ↔ ((ss ≢ []) × All (λ s. s.name ≢ []) ss)
unfolding encode_services_caveat_value
encode-eq-ok_iff [] = (λ h. absurd (cc (h.1)), λ h. absurd (h.0 refl))
encode-eq-ok_iff (s ∷ ss) = (
  λ h. (cc, (write-join (s ∷ ss) h.0 h.1).1),
  λ h. (join b',' (map service_entry (s ∷ ss)), write_services-named (s ∷ ss) h.1),
)

-- A service that carries the entry of another one in its name.
abbrev pub fused : Service → Service → Service
fused s t = record t { name = service_entry s ++ b',' ∷ t.name }

append-ne-nil : (xs ys : Bytes) → xs ++ b',' ∷ ys ≢ []
append-ne-nil [] ys = cc
append-ne-nil (x ∷ xs) ys = cc

fused-join :
    (s t : Service)
    → join b',' (map service_entry (fused s t ∷ [])) ≡ join b',' (map service_entry (s ∷ t ∷ []))
unfolding join service_entry
fused-join s t = append_assoc (service_entry s) (b',' ∷ t.name) (b':' ∷ format_uint t.tier)

-- The name of a service is not escaped: for two services with plain names, a single service whose
-- name is the first one's entry, a comma and the second one's name is encoded to a value that is
-- decoded to both of them.
pub decode-encode_fused :
    (s t : Service)
    → s.name ≢ []
    → t.name ≢ []
    → IsPlain s
    → IsPlain t
    → (v : Bytes) × (encode_services_caveat_value (fused s t ∷ []) ≡ ok v)
      × (decode_services_caveat_value v ≡ ok (unpriced s ∷ unpriced t ∷ []))
unfolding encode_services_caveat_value
decode-encode_fused s t hs ht ps pt = (
  join b',' (map service_entry (s ∷ t ∷ [])),
  write-fused,
  decode-join s (t ∷ []) (hs, (ht, tt)) (ps, (pt, tt)),
)
  where
    write-fused :
        encode_services_caveat_value (fused s t ∷ [])
        ≡ ok (join b',' (map service_entry (s ∷ t ∷ [])))
    write-fused =
        write_services-named (fused s t ∷ []) (append-ne-nil (service_entry s) _, tt)
        ∙ ap ok (fused-join s t)
