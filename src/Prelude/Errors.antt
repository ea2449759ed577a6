-- ===== src/Prelude/Errors.antt =====
-- Go's `(value, error)` results. The sentinel errors that callers tell apart have constructors of
-- their own; an error of a dependency is `external` with a number for its identity, one of a database
-- driver has the driver's code; `fail` is an
-- error built by `fmt.Errorf` or `errors.New`, with the text dropped.
use Prim.Native.Nat.{ℕ}
use mathlib.Core.Path.{◌≡◌, refl}
use mathlib.Core.Logic.{◌↔◌}
use mathlib.Core.Bool.{Bool, true, false}
use mathlib.Core.Option.{Option, none, some}
use mathlib.Core.List.{List}

pub data Error : Type 0 where
  err_invalid_caveat err_no_services err_invalid_service err_unknown_version : Error
  err_secret_not_found err_no_token err_no_replace err_payment_failed_terminally : Error
  err_eof err_unexpected_eof err_syntax err_range err_retries_exceeded : Error
  err_no_rows err_unique_violation err_serialization err_no_private_key err_session_not_found :
      Error
  fail : Error
  panicked : Error
  external : ℕ → Error
  sqlite_error : ℕ → Error
  postgres_error : List ℕ → Error

-- The outcome of a call that returns a value and an error.
pub data Result {ℓ} (V : Type ℓ) : Type ℓ where
  err : Error → Result V
  ok : V → Result V

module _ {ℓ} {V : Type ℓ} where
  -- The value of a lookup, or an error in its place.
  abbrev pub or_err : Option V → Error → Result V
  or_err (some v) missing = ok v
  or_err none missing = err missing

-- `if !test { return err }`
abbrev pub guard : Bool → Error → Result (Unit {0})
guard false failure = err failure
guard true failure = ok tt

module _ {ℓ κ} {V : Type ℓ} {W : Type κ} where
  infixl 5 ◌>>=◌
  -- `v, err := m; if err != nil { return err }`, and then the rest
  abbrev pub ◌>>=◌ : Result V → (V → Result W) → Result W
  err failure >>= rest = err failure
  ok v >>= rest = rest v

  -- Both steps of a chain that succeeds have succeeded.
  pub >>=-eq-ok :
      (m : Result V) (rest : V → Result W) {w : W}
      → (m >>= rest) ≡ ok w
      → (v : V) × (m ≡ ok v) × (rest v ≡ ok w)
  >>=-eq-ok (err failure) rest h = cc
  >>=-eq-ok (ok v) rest h = (v, refl, h)

module _ {κ} {W : Type κ} where
  infixl 5 ◌>>◌
  abbrev pub ◌>>◌ : Result (Unit {0}) → Result W → Result W
  m >> rest = m >>= λ _. rest

-- A result is an error or a value, with the equation kept.
pub data IsResult {ℓ} {A : Type ℓ} (r : Result A) : Type ℓ where
  is_ok : (a : A) → r ≡ ok a → IsResult r
  is_err : (e : Error) → r ≡ err e → IsResult r

pub Result-cases {ℓ} : {A : Type ℓ} (r : Result A) → IsResult r
Result-cases (ok a) = is_ok a refl
Result-cases (err e) = is_err e refl

-- Two checks in a row succeed when both do.
pub >>-eq-ok_iff : (m k : Result (Unit {0})) → ((m >> k) ≡ ok tt) ↔ ((m ≡ ok tt) × (k ≡ ok tt))
>>-eq-ok_iff (ok u) k = (λ h. (refl, h), λ h. h.1)
>>-eq-ok_iff (err e) k = (λ h. cc, λ h. absurd (cc (h.0)))

pub Result_unit-set : IsSet (Result (Unit {0}))
Result_unit-set = hlevel
