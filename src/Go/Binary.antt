-- ===== src/Go/Binary.antt =====
-- Packages encoding/binary (big endian), bytes and io: fixed-width numbers and reads of a buffer.
use mathlib.Core.List.{append-nil}
use native.Mathlib.Nat.{pow-suc}
use aperture.Prelude.{
  ◌≤◌, ℕ, zero, suc, ◌+◌, ◌-◌, ◌*◌, ◌/◌, ◌%◌, ◌^◌, ◌<◌, ◌≡◌, refl, ◌∙◌, [], ◌∷◌, ◌++◌, arith, ltb,
  if◌then◌else◌, Bytes, length, take, drop, replicate, length-append, take-append, drop-append,
  take-le, drop-le, ◌≢◌, Result, ok, err, err_eof, err_unexpected_eof,
}

-- The `w` bytes of a number, most significant first.
unfoldable pub put_uint : ℕ → ℕ → Bytes
put_uint zero n = []
put_uint (suc w) n = put_uint w (n / 256) ++ (n % 256) ∷ []

unfoldable pub get_uint : ℕ → Bytes → ℕ
get_uint acc [] = acc
get_uint acc (b ∷ s) = get_uint (acc * 256 + b) s

-- io.ReadFull for `n` bytes: what was read, and the rest of the buffer.
unfoldable pub read_full : ℕ → Bytes → Result (Bytes × Bytes)
read_full n s =
    if ltb (length s) n
    then (elim s [ [] ↦ err err_eof | c ∷ r ↦ err err_unexpected_eof ])
    else ok (take n s, drop n s)

-- binary.Read into an unsigned number of `w` bytes
unfoldable pub read_uint : ℕ → Bytes → Result (ℕ × Bytes)
unfolding read_full get_uint
read_uint w s = elim (read_full w s) [ ok (b, r) ↦ ok (get_uint 0 b, r) | err e ↦ err e ]

-- r.Read into a zeroed array of `n` bytes: what is there, up to `n`, and no error unless the
-- buffer is empty.
unfoldable pub read_some : ℕ → Bytes → Result (Bytes × Bytes)
read_some n [] = err err_eof
read_some n (c ∷ s) =
    let got = take n (c ∷ s) in ok (got ++ replicate (n - length got) 0, drop n (c ∷ s))

pub length-put_uint : (w n : ℕ) → length (put_uint w n) ≡ w
unfolding put_uint
length-put_uint zero n = refl
length-put_uint (suc w) n =
    omega
      (arith, length-append (put_uint w (n / 256)) ((n % 256) ∷ []), length-put_uint w (n / 256))

get_uint-append :
    (acc : ℕ) (s : Bytes) (b : ℕ) → get_uint acc (s ++ b ∷ []) ≡ get_uint acc s * 256 + b
unfolding get_uint
get_uint-append acc [] b = refl
get_uint-append acc (c ∷ s) b = get_uint-append (acc * 256 + c) s b

pub get-put_uint : (w n : ℕ) → n < 256 ^ w → get_uint 0 (put_uint w n) ≡ n
unfolding put_uint
get-put_uint zero n h = unfold get_uint in omega arith
get-put_uint (suc w) n h =
    get_uint-append 0 (put_uint w (n / 256)) (n % 256)
    ∙ omega (arith, get-put_uint w (n / 256) (omega (arith, pow-suc 256 w)))

-- Reading what was written in front of a rest gives it and the rest.
pub read_full-append :
    (n : ℕ) (xs ys : Bytes) → length xs ≡ n → read_full n (xs ++ ys) ≡ ok (xs, ys)
unfolding read_full
read_full-append n xs ys h =
    ground (arith, length-append xs ys, take-append xs ys n h, drop-append xs ys n h)

pub read_uint-put :
    (w n : ℕ) (ys : Bytes) → n < 256 ^ w → read_uint w (put_uint w n ++ ys) ≡ ok (n, ys)
unfolding read_uint
read_uint-put w n ys h =
    ground (arith, read_full-append w (put_uint w n) ys (length-put_uint w n), get-put_uint w n h)

pub read_some-append :
    (n : ℕ) (xs ys : Bytes) → length xs ≡ n → 0 < n → read_some n (xs ++ ys) ≡ ok (xs, ys)
unfolding read_some
read_some-append n [] ys h p = absurd (omega arith)
read_some-append n (x ∷ xs) ys h p =
    let whole : take n (x ∷ (xs ++ ys)) ≡ x ∷ xs = take-append (x ∷ xs) ys n h in
    let after : drop n (x ∷ (xs ++ ys)) ≡ ys = drop-append (x ∷ xs) ys n h in
    let full : n - length (x ∷ xs) ≡ 0 = omega arith in
    rw (whole, after) (rw full (rw (append-nil xs)))

pub read_some-short :
    (n : ℕ) (part : Bytes)
    → part ≢ []
    → length part ≤ n
    → read_some n part ≡ ok (part ++ replicate (n - length part) 0, [])
unfolding read_some
read_some-short n [] p l = absurd (p refl)
read_some-short n (c ∷ s) p l = rw (take-le n (c ∷ s) l, drop-le n (c ∷ s) l)
