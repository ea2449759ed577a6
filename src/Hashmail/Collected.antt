-- ===== src/Hashmail/Collected.antt =====
-- How the goroutines of newStream in hashmail_server.go cut a write into reads and join them again.
use mathlib.Core.List.{append-nil, append_assoc}
use Prim.Native.Nat.{min}
use aperture.Prelude.{
  ◌⊎◌, ℕ, zero, suc, ◌-◌, ◌%◌, ◌≤◌, ◌<◌, ◌≡◌, ◌≢◌, ◌∙◌, sym, ap, refl, inl, inr, List, [], ◌∷◌,
  ◌++◌, Bytes, length, take, drop, length-take, length-drop, take-drop, take-le, drop-le, arith,
}
use aperture.Hashmail.{default_buf_size}
use aperture.Hashmail.Framing.{pieces, pieces_of, copy_size, collect}

-- The joined bytes are handed over as one block, and the rest is collected anew.
abbrev pub handed : Bytes → List Bytes → List Bytes × Bytes
handed joined rest = (joined ∷ (collect [] rest).0, (collect [] rest).1)

collect-full :
    (joined r : Bytes) (rs : List Bytes)
    → length r ≡ default_buf_size
    → collect joined (r ∷ rs) ≡ collect (joined ++ r) rs
unfolding collect
collect-full joined r rs h = ground (arith, h)

collect-short :
    (joined r : Bytes) (rs : List Bytes)
    → length r ≢ default_buf_size
    → collect joined (r ∷ rs) ≡ handed (joined ++ r) rs
unfolding collect
collect-short joined r rs h = ground (arith, h)

-- A block whose first piece is full.
pieces-full :
    (fuel n : ℕ) (s : Bytes)
    → 1 ≤ length s
    → pieces (suc fuel) n s ≡ take n s ∷ pieces fuel n (drop n s)
unfolding pieces
pieces-full fuel n [] h = absurd (omega arith)
pieces-full fuel n (b ∷ s) h = refl

pieces-nil : (fuel n : ℕ) → pieces fuel n [] ≡ []
unfolding pieces
pieces-nil zero n = refl
pieces-nil (suc fuel) n = refl

rejoined : (joined s : Bytes) (n : ℕ) → (joined ++ take n s) ++ drop n s ≡ joined ++ s
rejoined joined s n =
    append_assoc joined (take n s) (drop n s) ∙ ap (λ t. joined ++ t) (take-drop n s)

le_or_lt : (m n : ℕ) → (m ≤ n) ⊎ (n < m)
le_or_lt m n = ground arith

-- A block that fills its reads is kept back.
collect-multiple :
    (fuel : ℕ) (s joined : Bytes) (rest : List Bytes)
    → length s ≤ fuel
    → length s % default_buf_size ≡ 0
    → collect joined (pieces fuel default_buf_size s ++ rest) ≡ collect (joined ++ s) rest
collect-multiple fuel [] joined rest h m =
    rw (pieces-nil fuel default_buf_size, append-nil joined) refl
collect-multiple zero (b ∷ s) joined rest h m = absurd (omega arith)
collect-multiple (suc fuel) (b ∷ s) joined rest h m =
    let r : Bytes = take default_buf_size (b ∷ s) in
    let q : Bytes = drop default_buf_size (b ∷ s) in
    let size : length q ≡ length (b ∷ s) - default_buf_size =
      length-drop default_buf_size (b ∷ s) in
    let full : length r ≡ default_buf_size =
      omega (arith, length-take default_buf_size (b ∷ s), m) in
    let first = collect-full joined r (pieces fuel default_buf_size q ++ rest) full in
    let then =
      collect-multiple fuel q (joined ++ r) rest (omega (arith, size, h))
        (omega (arith, size, m)) in
    cc (
      first,
      then,
      rejoined joined (b ∷ s) default_buf_size,
      pieces-full fuel default_buf_size (b ∷ s) (omega arith),
    )

-- Any other block is handed over, behind what was joined before.
collect-other :
    (fuel : ℕ) (s joined : Bytes) (rest : List Bytes)
    → length s ≤ fuel
    → length s % default_buf_size ≢ 0
    → collect joined (pieces fuel default_buf_size s ++ rest) ≡ handed (joined ++ s) rest
collect-other fuel [] joined rest h m = absurd (m (omega arith))
collect-other zero (b ∷ s) joined rest h m = absurd (omega arith)
collect-other (suc fuel) (b ∷ s) joined rest h m =
    let r : Bytes = take default_buf_size (b ∷ s) in
    let q : Bytes = drop default_buf_size (b ∷ s) in
    let size : length q ≡ length (b ∷ s) - default_buf_size =
      length-drop default_buf_size (b ∷ s) in
    let start = pieces-full fuel default_buf_size (b ∷ s) (omega arith) in
    elim (le_or_lt default_buf_size (length (b ∷ s))) [
      | inl y ↦
          let full : length r ≡ default_buf_size =
            omega (arith, length-take default_buf_size (b ∷ s), y) in
          let first = collect-full joined r (pieces fuel default_buf_size q ++ rest) full in
          let then =
            collect-other fuel q (joined ++ r) rest (omega (arith, size, h))
              (λ e. m (omega (arith, size, e, y))) in
          cc (first, then, rejoined joined (b ∷ s) default_buf_size, start)
      | inr n ↦
          let whole : r ≡ b ∷ s = take-le default_buf_size (b ∷ s) (omega (arith, n)) in
          let none_left : q ≡ [] = drop-le default_buf_size (b ∷ s) (omega (arith, n)) in
          let short : length r ≢ default_buf_size = λ e. omega (arith, n, e, ap length whole) in
          let first = collect-short joined r (pieces fuel default_buf_size q ++ rest) short in
          cc (first, whole, none_left, pieces-nil fuel default_buf_size, start)
    ]

pub pieces_of-append :
    (n : ℕ) (xs ys : List Bytes) → pieces_of n (xs ++ ys) ≡ pieces_of n xs ++ pieces_of n ys
unfolding pieces_of
pieces_of-append n [] ys = refl
pieces_of-append n (x ∷ xs) ys =
    ap (λ t. pieces (length x) n x ++ t) (pieces_of-append n xs ys)
    ∙ sym (append_assoc (pieces (length x) n x) (pieces_of n xs) (pieces_of n ys))

-- What the first goroutine makes of a block, when it is read.
unfoldable pub copied : ℕ → Bytes → List Bytes
copied fuel s = pieces_of default_buf_size (pieces fuel copy_size s)

copied-step :
    (fuel : ℕ) (s : Bytes) (rest : List Bytes)
    → 1 ≤ length s
    → copied (suc fuel) s ++ rest
      ≡ pieces (length (take copy_size s)) default_buf_size (take copy_size s)
        ++ (copied fuel (drop copy_size s) ++ rest)
unfolding copied pieces_of
copied-step fuel s rest h =
    let q : List Bytes = pieces_of default_buf_size (pieces fuel copy_size (drop copy_size s)) in
    ap (λ p. pieces_of default_buf_size p ++ rest) (pieces-full fuel copy_size s h)
    ∙ append_assoc (pieces (length (take copy_size s)) default_buf_size (take copy_size s)) q rest

copied-nil : (fuel : ℕ) → copied fuel [] ≡ []
unfolding copied pieces_of
copied-nil fuel = rw (pieces-nil fuel copy_size) refl

pub collect-copied-multiple :
    (fuel : ℕ) (s joined : Bytes) (rest : List Bytes)
    → length s ≤ fuel
    → length s % default_buf_size ≡ 0
    → collect joined (copied fuel s ++ rest) ≡ collect (joined ++ s) rest
collect-copied-multiple fuel [] joined rest h m = rw (copied-nil fuel, append-nil joined) refl
collect-copied-multiple zero (b ∷ s) joined rest h m = absurd (omega arith)
collect-copied-multiple (suc fuel) (b ∷ s) joined rest h m =
    let r : Bytes = take copy_size (b ∷ s) in
    let q : Bytes = drop copy_size (b ∷ s) in
    let taken : length r ≡ min copy_size (length (b ∷ s)) = length-take copy_size (b ∷ s) in
    let size : length q ≡ length (b ∷ s) - copy_size = length-drop copy_size (b ∷ s) in
    let first =
      collect-multiple (length r) r joined (copied fuel q ++ rest) (omega arith)
        (omega (arith, taken, m)) in
    let then =
      collect-copied-multiple fuel q (joined ++ r) rest (omega (arith, size, h))
        (omega (arith, size, m)) in
    cc (first, then, rejoined joined (b ∷ s) copy_size, copied-step fuel (b ∷ s) rest (omega arith))

pub collect-copied-other :
    (fuel : ℕ) (s joined : Bytes) (rest : List Bytes)
    → length s ≤ fuel
    → length s % default_buf_size ≢ 0
    → collect joined (copied fuel s ++ rest) ≡ handed (joined ++ s) rest
collect-copied-other fuel [] joined rest h m = absurd (m (omega arith))
collect-copied-other zero (b ∷ s) joined rest h m = absurd (omega arith)
collect-copied-other (suc fuel) (b ∷ s) joined rest h m =
    let r : Bytes = take copy_size (b ∷ s) in
    let q : Bytes = drop copy_size (b ∷ s) in
    let taken : length r ≡ min copy_size (length (b ∷ s)) = length-take copy_size (b ∷ s) in
    let size : length q ≡ length (b ∷ s) - copy_size = length-drop copy_size (b ∷ s) in
    let start = copied-step fuel (b ∷ s) rest (omega arith) in
    elim (le_or_lt copy_size (length (b ∷ s))) [
      | inl y ↦
          let first =
            collect-multiple (length r) r joined (copied fuel q ++ rest) (omega arith)
              (omega (arith, taken, y)) in
          let then =
            collect-copied-other fuel q (joined ++ r) rest (omega (arith, size, h))
              (λ e. m (omega (arith, size, e, y))) in
          cc (first, then, rejoined joined (b ∷ s) copy_size, start)
      | inr n ↦
          let whole : r ≡ b ∷ s = take-le copy_size (b ∷ s) (omega (arith, n)) in
          let none_left : q ≡ [] = drop-le copy_size (b ∷ s) (omega (arith, n)) in
          let first =
            collect-other (length r) r joined (copied fuel q ++ rest) (omega arith)
              (λ e. m (omega (arith, e, ap length whole))) in
          cc (first, whole, none_left, copied-nil fuel, start)
    ]
