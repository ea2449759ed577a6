-- ===== src/L402/Header/Scan.antt =====
-- What the pattern of l402/header.go finds in a value that SetHeader wrote.
use aperture.Prelude.{
  ℕ, ◌≡◌, ◌≢◌, refl, true, false, List, [], ◌∷◌, ◌++◌, Bytes, codes, length, take-le, arith, ◌==◌,
  Option, some, All,
}
use aperture.Go.Strings.{has_prefix}
use aperture.Go.Base64.{IsClean}
use aperture.L402.Lntypes.{is_lower_hex}
use aperture.L402.Header.{
  has_prefix, all_bytes, hex_run, match_rest, find_auth, match_values, auth_value,
}

-- The text of a preimage: 64 lower case hex digits.
abbrev pub IsHexText : Bytes → Type 0
IsHexText p = (length p ≡ 64) × All (λ c. is_lower_hex c ≡ true) p

all_bytes-All : (s : Bytes) → All (λ c. is_lower_hex c ≡ true) s → all_bytes is_lower_hex s ≡ true
all_bytes-All [] h = refl
all_bytes-All (c ∷ s) h = rw (h.0, all_bytes-All s h.1) refl

hex_run-IsHexText : (p : Bytes) → IsHexText p → hex_run p ≡ true
unfolding hex_run
hex_run-IsHexText p h = rw (take-le 64 p (omega arith), h.0, all_bytes-All p h.1) refl

ne_test : (c d : ℕ) → c ≢ d → (c == d) ≡ false
ne_test c d h = ground arith

match_rest-clean :
    (m p : Bytes) → All IsClean m → IsHexText p → match_rest (m ++ b':' ∷ p) ≡ some (m, p)
unfolding match_rest
match_rest-clean [] p h k = rw (hex_run-IsHexText p k, take-le 64 p (omega arith)) refl
match_rest-clean (c ∷ m) p h k =
    let not_colon : (c == b':') ≡ false = ne_test c b':' h.0.2 in
    let not_line : (c == 10) ≡ false = ne_test c 10 h.0.0 in
    rw (not_colon, not_line, match_rest-clean m p h.1 k) refl

pub find_auth-legacy :
    (m p : Bytes)
    → All IsClean m
    → IsHexText p
    → find_auth (auth_value (codes "LSAT") m p) ≡ some (m, p)
unfolding find_auth has_prefix
find_auth-legacy m p h k = rw (match_rest-clean m p h k) refl

pub find_auth-current :
    (m p : Bytes)
    → All IsClean m
    → IsHexText p
    → find_auth (auth_value (codes "L402") m p) ≡ some (m, p)
unfolding find_auth has_prefix
find_auth-current m p h k = rw (match_rest-clean m p h k) refl

-- The loop over several values keeps what it finds in the last one.
pub match_values-last :
    (ms : Option (Bytes × Bytes)) (vs : List Bytes) (v : Bytes)
    → match_values ms (vs ++ v ∷ []) ≡ find_auth v
unfolding match_values
match_values-last ms [] v = refl
match_values-last ms (w ∷ vs) v = match_values-last (find_auth w) vs v
