-- ===== src/Go/Time.antt =====
-- Package time: an instant as its seconds since the year 1 and its nanoseconds, in int64 arithmetic.
use aperture.Prelude.{
  ℕ, ◌+◌, ◌-◌, ◌*◌, ◌/◌, suc, leb, ◌%◌, ◌^◌, ◌≡◌, Bool, true, false, ◌&&◌, ◌||◌, arith, ltb, ◌==◌,
  if◌then◌else◌, ℤ, pos, negsuc, ◌+ℤ◌, ltb_ℤ, pos_part, neg_part,
}

-- The 64 bits of an integer, and the int64 that they stand for.
abbrev pub to_uint64 : ℤ → ℕ
to_uint64 (pos n) = n % 2 ^ 64
to_uint64 (negsuc n) = 2 ^ 64 - 1 - n % 2 ^ 64

abbrev pub to_int64 : ℕ → ℤ
to_int64 u = if ltb u (2 ^ 63) then pos u else negsuc (2 ^ 64 - 1 - u)

abbrev pub wrap_int64 : ℤ → ℤ
wrap_int64 z = to_int64 (to_uint64 z)

pub record Time : Type 0 where
  pub sec : ℤ
  pub nsec : ℕ

-- The seconds from the year 1 to 1970.
abbrev pub unix_to_internal : ℤ
unix_to_internal = pos 62135596800

-- time.Unix(sec, 0)
unfoldable pub time_unix : ℤ → Time
unfolding ◌+ℤ◌
time_unix z = record { sec = wrap_int64 (z +ℤ unix_to_internal); nsec = 0 }

-- time.Duration(n) * time.Second, in int64 arithmetic
unfoldable pub seconds : ℤ → ℤ
seconds (pos n) = wrap_int64 (pos (n * 1000000000))
seconds (negsuc n) = wrap_int64 (negsuc (suc n * 1000000000 - 1))

-- The seconds of an instant, kept within int64
unfoldable pub saturated : ℤ → ℤ
saturated (pos n) = if ltb n (2 ^ 63) then pos n else pos (2 ^ 63 - 1)
saturated (negsuc n) = if ltb n (2 ^ 63) then negsuc n else negsuc (2 ^ 63 - 2)

-- t.Add(d): a quotient that is rounded towards zero, and a carry or a borrow of one second.
unfoldable pub add_duration : Time → ℤ → Time
unfolding saturated ◌+ℤ◌
add_duration t (pos d) =
    let nsec = t.nsec + d % 1000000000 in
    if leb 1000000000 nsec
    then record { sec = saturated (t.sec +ℤ pos (d / 1000000000 + 1)); nsec = nsec - 1000000000 }
    else record { sec = saturated (t.sec +ℤ pos (d / 1000000000)); nsec = nsec }
add_duration t (negsuc e) =
    let r = suc e % 1000000000 in
    if ltb t.nsec r
    then record {
      sec = saturated (t.sec +ℤ negsuc (suc e / 1000000000));
      nsec = t.nsec + 1000000000 - r;
    }
    else record {
      sec = saturated ((t.sec +ℤ pos 1) +ℤ negsuc (suc e / 1000000000));
      nsec = t.nsec - r;
    }

abbrev eq_ℤ : ℤ → ℤ → Bool
eq_ℤ a b = (pos_part a + neg_part b) == (pos_part b + neg_part a)

-- t.Before(u)
unfoldable pub before : Time → Time → Bool
before t u = ltb_ℤ t.sec u.sec || (eq_ℤ t.sec u.sec && ltb t.nsec u.nsec)

-- What is not before `t` comes after all that is before `t`.
pub before_trans : (now t u : Time) → before now t ≡ true → before u t ≡ false → before now u ≡ true
unfolding before
before_trans now t u h k = ground arith

pub before_irrefl : (t : Time) → before t t ≡ false
unfolding before
before_irrefl t = ground arith
