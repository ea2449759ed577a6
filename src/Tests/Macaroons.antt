-- ===== src/Tests/Macaroons.antt =====
-- A small macaroon library that satisfies the laws: a macaroon keeps its key, and verifies under it.
use mathlib.Core.Logic.{◌≢◌}
use aperture.Prelude.{
  ◌<◌, All-append, ◌+◌, ◌≢◌, ◌==◌, ℕ, zero, suc, ◌≡◌, refl, List, [], ◌∷◌, ◌++◌, map, All, Lacks,
  Bytes, bytes_eq, bytes_eq_refl, if◌then◌else◌, Result, ok, err, fail, arith,
}
use aperture.Go.Strings.{split, join, split-join}
use aperture.Go.Hex.{AreBytes}
use aperture.L402.Macaroon.{MacaroonLib, IsMacaroonLib}

pub record Toy : Type 0 where
  pub key : Bytes
  pub id : Bytes
  pub caveats : List Bytes

-- A number in unary: as many twos, and a one.
abbrev pub unary : ℕ → Bytes → Bytes
unary zero s = 1 ∷ s
unary (suc n) s = 2 ∷ unary n s

abbrev pub shift : Bytes → Bytes
shift [] = []
shift (n ∷ s) = unary n (shift s)

abbrev pub lower : ℕ → Bytes → Bytes
lower n [] = []
lower n (x ∷ s) = if x == 1 then n ∷ lower 0 s else lower (suc n) s

abbrev pub parts : Toy → List Bytes
parts m = map shift (m.id ∷ m.caveats)

abbrev pub of_parts : List Bytes → Result Toy
of_parts (k ∷ i ∷ cs) = ok (record { key = k; id = i; caveats = cs })
of_parts _ = err fail

unfoldable pub toy_marshal : Toy → Result Bytes
toy_marshal m = ok (join 0 (shift m.key ∷ parts m))

unfoldable pub toy_unmarshal : Bytes → Result Toy
unfolding split
toy_unmarshal b = of_parts (map (lower 0) (split 0 b))

unfoldable pub toy_verify : Toy → Bytes → Result (List Bytes)
unfolding bytes_eq
toy_verify m key = if bytes_eq m.key key then ok m.caveats else err fail

abbrev pub toys : MacaroonLib
toys = record {
  Macaroon = Toy;
  make = λ key id loc. ok (record { key = key; id = id; caveats = [] });
  id = λ m. m.id;
  caveats = λ m. m.caveats;
  add_first_party_caveat = λ m c. ok (record m { caveats = m.caveats ++ c ∷ [] });
  verify_signature = toy_verify;
  marshal_binary = toy_marshal;
  unmarshal_binary = toy_unmarshal;
}

lower-unary : (n k : ℕ) (s : Bytes) → lower k (unary n s) ≡ (k + n) ∷ lower 0 s
lower-unary zero k s = ground arith
lower-unary (suc n) k s = rw (lower-unary n (suc k) s) (ground arith)

lower-shift : (b : Bytes) → lower 0 (shift b) ≡ b
lower-shift [] = refl
lower-shift (x ∷ b) = ground (arith, lower-unary x 0 (shift b), lower-shift b)

lower-shift_all : (bs : List Bytes) → map (lower 0) (map shift bs) ≡ bs
lower-shift_all [] = refl
lower-shift_all (b ∷ bs) = cc (lower-shift b, lower-shift_all bs)

unary-Lacks : (n : ℕ) (s : Bytes) → Lacks 0 s → Lacks 0 (unary n s)
unary-Lacks zero s h = (omega arith, h)
unary-Lacks (suc n) s h = (omega arith, unary-Lacks n s h)

shift-Lacks : (b : Bytes) → Lacks 0 (shift b)
shift-Lacks [] = tt
shift-Lacks (x ∷ b) = unary-Lacks x (shift b) (shift-Lacks b)

shifts-Lacks : (bs : List Bytes) → All (Lacks 0) (map shift bs)
shifts-Lacks [] = tt
shifts-Lacks (b ∷ bs) = (shift-Lacks b, shifts-Lacks bs)

unary-AreBytes : (n : ℕ) (s : Bytes) → AreBytes s → AreBytes (unary n s)
unary-AreBytes zero s h = (omega arith, h)
unary-AreBytes (suc n) s h = (omega arith, unary-AreBytes n s h)

shift-AreBytes : (b : Bytes) → AreBytes (shift b)
shift-AreBytes [] = tt
shift-AreBytes (x ∷ b) = unary-AreBytes x (shift b) (shift-AreBytes b)

join-AreBytes : (s : Bytes) (bs : List Bytes) → AreBytes s → AreBytes (join 0 (s ∷ map shift bs))
unfolding join
join-AreBytes s [] h = h
join-AreBytes s (b ∷ bs) h =
    All-append (λ x. x < 256) s (0 ∷ join 0 (map shift (b ∷ bs))) h
      (omega arith, join-AreBytes (shift b) bs (shift-AreBytes b))

join-ne : (s : Bytes) (t : Bytes) (bs : List Bytes) → join 0 (s ∷ t ∷ bs) ≢ []
unfolding join
join-ne [] t bs = λ e. cc
join-ne (c ∷ s) t bs = λ e. cc

marshal-AreBytes : (m : Toy) (b : Bytes) → toy_marshal m ≡ ok b → AreBytes b
unfolding toy_marshal
marshal-AreBytes m b e =
    let written : b ≡ join 0 (shift m.key ∷ parts m) = cc in
    rw written (join-AreBytes (shift m.key) (m.id ∷ m.caveats) (shift-AreBytes m.key))

marshal-ne : (m : Toy) → toy_marshal m ≢ ok []
unfolding toy_marshal
marshal-ne m = λ e. join-ne (shift m.key) (shift m.id) (map shift m.caveats) cc

unmarshal-marshal : (m : Toy) (b : Bytes) → toy_marshal m ≡ ok b → toy_unmarshal b ≡ ok m
unfolding toy_marshal toy_unmarshal
unmarshal-marshal m b e = ground (
  arith,
  split-join 0 (shift m.key) (parts m) (shift-Lacks m.key) (shifts-Lacks (m.id ∷ m.caveats)),
  lower-shift m.key,
  lower-shift m.id,
  lower-shift_all m.caveats,
)

pub toys-IsMacaroonLib : IsMacaroonLib toys
unfolding toy_verify
toys-IsMacaroonLib = record {
  id-make = λ key id loc m e. ground arith;
  caveats-make = λ key id loc m e. ground arith;
  id-add = λ m n c e. ground arith;
  caveats-add = λ m n c e. ground arith;
  verify-make = λ key id loc m e. ground (arith, bytes_eq_refl key);
  verify-add = λ m n c key cs e v. ground arith;
  verify-caveats = λ m key cs v. ground arith;
  unmarshal-marshal = unmarshal-marshal;
  marshal-AreBytes = marshal-AreBytes;
  marshal-ne = marshal-ne;
}
