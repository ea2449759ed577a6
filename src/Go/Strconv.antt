-- ===== src/Go/Strconv.antt =====
-- Package strconv in base ten, and the `%v` of unsigned numbers.
use aperture.Prelude.{
  ℕ, zero, suc, ◌+◌, ◌-◌, ◌*◌, ◌/◌, ◌%◌, ◌^◌, ◌≤◌, ◌<◌, ◌≡◌, ◌⊎◌, inl, inr, Bool, true, false, ◌&&◌,
  Option, none, some, [], ◌∷◌, ◌++◌, arith, ltb, leb, ◌==◌, if◌then◌else◌, Bytes, Lacks,
  Lacks-append, ℤ, pos, negsuc, Result, ok, err, err_syntax, err_range, Bool-cases,
}

-- The digits of a number, least significant last; the fuel bounds their number.
digits_from : ℕ → ℕ → Bytes
digits_from zero n = []
digits_from (suc fuel) n =
    let more = digits_from fuel (n / 10) ++ (n % 10 + 48) ∷ [] in
    if ltb n 10 then (n + 48) ∷ [] else more

-- strconv.FormatUint, and fmt's `%v` of an unsigned number.
unfoldable pub format_uint : ℕ → Bytes
unfolding digits_from
format_uint n = digits_from (suc n) n

-- strconv.FormatInt
unfoldable pub format_int : ℤ → Bytes
unfolding format_uint
format_int (pos n) = format_uint n
format_int (negsuc n) = b'-' ∷ format_uint (suc n)

abbrev pub is_digit : ℕ → Bool
is_digit c = leb 48 c && leb c 57

-- The value of a run of digits, on from `acc`; `none` at any other byte.
unfoldable pub parse_digits : ℕ → Bytes → Option ℕ
parse_digits acc [] = some acc
parse_digits acc (c ∷ s) =
    let rest = parse_digits (acc * 10 + (c - 48)) s in if is_digit c then rest else none

abbrev pub int64_bound : ℕ
int64_bound = 2 ^ 63

-- The number after its sign, within int64.
unfoldable pub signed : Bool → Bytes → Result ℤ
unfolding parse_digits
signed minus [] = err err_syntax
signed false (c ∷ s) = elim (parse_digits 0 (c ∷ s)) [
  | none ↦ err err_syntax
  | some n ↦ if ltb n int64_bound then ok (pos n) else err err_range
]
signed true (c ∷ s) = elim (parse_digits 0 (c ∷ s)) [
  | none ↦ err err_syntax
  | some zero ↦ ok (pos 0)
  | some (suc n) ↦ if ltb n int64_bound then ok (negsuc n) else err err_range
]

-- strconv.ParseInt(s, 10, 64), and strconv.Atoi where int has 64 bits.
unfoldable pub parse_int : Bytes → Result ℤ
unfolding signed
parse_int [] = err err_syntax
parse_int (c ∷ s) =
    if c == b'-' then signed true s else if c == b'+' then signed false s else signed false (c ∷ s)

parse_digits-append :
    (acc v : ℕ) (xs ys : Bytes)
    → parse_digits acc xs ≡ some v
    → parse_digits acc (xs ++ ys) ≡ parse_digits v ys
unfolding parse_digits
parse_digits-append acc v [] ys h = ground arith
parse_digits-append acc v (c ∷ xs) ys h =
    ground (arith, parse_digits-append (acc * 10 + (c - 48)) v xs ys)

parse_digit : (acc d : ℕ) → d < 10 → parse_digits acc ((d + 48) ∷ []) ≡ some (acc * 10 + d)
unfolding parse_digits
parse_digit acc d h = ground arith

parse-digits_from : (fuel n : ℕ) → n < fuel → parse_digits 0 (digits_from fuel n) ≡ some n
unfolding digits_from
parse-digits_from zero n h = elim h [ ]
parse-digits_from (suc fuel) n h = ground (
  arith,
  parse_digit 0 n,
  parse-digits_from fuel (n / 10),
  parse_digits-append 0 (n / 10) (digits_from fuel (n / 10)) ((n % 10 + 48) ∷ []),
  parse_digit (n / 10) (n % 10),
)

-- Reading the digits of a number gives the number.
pub parse_digits-format_uint : (n : ℕ) → parse_digits 0 (format_uint n) ≡ some n
unfolding format_uint
parse_digits-format_uint n = parse-digits_from (suc n) n (omega arith)

-- A text that begins with a digit.
abbrev pub Starts : Bytes → Type 0
Starts [] = ⊥
Starts (c ∷ s) = (48 ≤ c) × (c ≤ 57)

Starts-append : (xs ys : Bytes) → Starts xs → Starts (xs ++ ys)
Starts-append [] ys h = absurd h
Starts-append (x ∷ xs) ys h = h

digits_from-Starts : (fuel n : ℕ) → n < fuel → Starts (digits_from fuel n)
unfolding digits_from
digits_from-Starts zero n h = elim h [ ]
digits_from-Starts (suc fuel) n h = elim (Bool-cases (ltb n 10)) [
  | inl e ↦ rw e (ground arith)
  | inr e ↦ rw e (
      Starts-append (digits_from fuel (n / 10)) _ (digits_from-Starts fuel (n / 10) (ground arith)))
]

pub format_uint-Starts : (n : ℕ) → Starts (format_uint n)
unfolding format_uint
format_uint-Starts n = digits_from-Starts (suc n) n (omega arith)

digits_from-Lacks : (c fuel n : ℕ) → (c < 48) ⊎ (57 < c) → Lacks c (digits_from fuel n)
unfolding digits_from
digits_from-Lacks c zero n h = tt
digits_from-Lacks c (suc fuel) n h = elim (Bool-cases (ltb n 10)) [
  | inl e ↦ rw e (ground arith, tt)
  | inr e ↦ rw e (
      Lacks-append c (digits_from fuel (n / 10)) _ (digits_from-Lacks c fuel (n / 10) h)
        (omega arith, tt))
]

-- A printed number holds digits only.
pub format_uint-Lacks : (c n : ℕ) → (c < 48) ⊎ (57 < c) → Lacks c (format_uint n)
unfolding format_uint
format_uint-Lacks c n h = digits_from-Lacks c (suc n) n h

signed-pos :
    (s : Bytes) (n : ℕ)
    → Starts s
    → parse_digits 0 s ≡ some n
    → n < int64_bound
    → signed false s ≡ ok (pos n)
unfolding signed
signed-pos [] n h e b = absurd h
signed-pos (c ∷ s) n h e b = ground arith

signed-neg :
    (s : Bytes) (n : ℕ)
    → Starts s
    → parse_digits 0 s ≡ some (suc n)
    → n < int64_bound
    → signed true s ≡ ok (negsuc n)
unfolding signed
signed-neg [] n h e b = absurd h
signed-neg (c ∷ s) n h e b = ground arith

parse_int-Starts : (s : Bytes) → Starts s → parse_int s ≡ signed false s
unfolding parse_int
parse_int-Starts [] h = absurd h
parse_int-Starts (c ∷ s) h = ground arith

-- An int64.
abbrev pub IsInt64 : ℤ → Type 0
IsInt64 (pos n) = n < int64_bound
IsInt64 (negsuc n) = n < int64_bound

-- Reading a printed int64 gives it back.
pub parse_int-format_int : (z : ℤ) → IsInt64 z → parse_int (format_int z) ≡ ok z
unfolding format_int
parse_int-format_int (pos n) h =
    rw (parse_int-Starts _ (format_uint-Starts n))
      (signed-pos _ n (format_uint-Starts n) (parse_digits-format_uint n) h)
parse_int-format_int (negsuc n) h =
    minus (format_uint (suc n))
      (signed-neg _ n (format_uint-Starts (suc n)) (parse_digits-format_uint (suc n)) h)
  where
    minus : (s : Bytes) → signed true s ≡ ok (negsuc n) → parse_int (b'-' ∷ s) ≡ ok (negsuc n)
    minus s e = unfold parse_int in e
