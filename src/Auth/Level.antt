-- ===== src/Auth/Level.antt =====
-- auth/config.go: the authentication level of a service.
use aperture.Prelude.{
  ◌-◌, ℕ, ◌%◌, ◌^◌, Bool, ◌||◌, [], ◌∷◌, Bytes, bytes_eq, codes, Result, ok, err, panicked, ℤ, pos,
  negsuc,
}
use aperture.Go.Strings.{split, to_lower, has_prefix}
use aperture.Go.Strconv.{parse_int}

-- LevelOff
abbrev pub level_off : Bytes
level_off = codes "off"

unfoldable pub is_on : Bytes → Bool
is_on level =
    let lower = to_lower level in
    bytes_eq lower [] || (bytes_eq lower (codes "on") || bytes_eq lower (codes "true"))

unfoldable pub is_freebie : Bytes → Bool
is_freebie level = has_prefix (to_lower level) (codes "freebie")

unfoldable pub is_off : Bytes → Bool
is_off level =
    let lower = to_lower level in bytes_eq lower (codes "off") || bytes_eq lower (codes "false")

-- The conversion of an int to Count, a uint16
abbrev pub to_uint16 : ℤ → ℕ
to_uint16 (pos n) = n % 2 ^ 16
to_uint16 (negsuc n) = 2 ^ 16 - 1 - n % 2 ^ 16

-- FreebieCount, which panics at a level that is not "freebie" and a number.
unfoldable pub freebie_count : Bytes → Result ℕ
freebie_count level = elim (split 32 (to_lower level)) [
  | word ∷ number ∷ [] ↦ elim (parse_int number) [
    | ok count ↦ ok (to_uint16 count)
    | err e ↦ err panicked
  ]
  | _ ↦ err panicked
]
