-- ===== src/Prelude/Decimal.antt =====
-- `%d` of printf for an `int` that a count of bytes is converted to.
use Prim.Native.Nat.{ℕ, zero, suc, ◌+◌, ◌-◌, ◌*◌, ◌/◌, ◌%◌, ◌^◌, ◌≤◌, ◌<◌}
use mathlib.Core.Path.{◌≡◌, ◌∙◌, ap, sym}
use mathlib.Core.List.{[], ◌∷◌}
use mathlib.Core.Logic.{inl, inr}
use native.Mathlib.Omega.{arith}
use sighttpd.Prelude.Tests.{ltb, ◌==◌, if◌then◌else◌, Bool-cases, ==_iff, lt→ltb}
use sighttpd.Prelude.Lists.{length}
use sighttpd.Prelude.CString.{Text}

unfoldable pub digits : ℕ → ℕ → Text → Text
digits zero n out = out
digits (suc fuel) n out =
    let rest = digits fuel (n / 10) ((b'0' + n % 10) ∷ out) in if n == 0 then out else rest

-- A number below 2 ^ 32 has at most ten digits.
unfoldable pub decimal : ℕ → Text
decimal n = if n == 0 then b'0' ∷ [] else digits 10 n []

-- An argument of more than 32 bits is cut, and read in two's complement.
unfoldable pub print_int : ℕ → Text
print_int n =
    let m = n % 2 ^ 32 in if ltb m (2 ^ 31) then decimal m else b'-' ∷ decimal (2 ^ 32 - m)

-- The number that digits stand for.
unfoldable pub value : Text → ℕ → ℕ
value [] n = n
value (c ∷ s) n = value s (n * 10 + (c - b'0'))

length-digits : (fuel n : ℕ) (out : Text) → length (digits fuel n out) ≤ fuel + length out
unfolding digits
length-digits zero n out = omega arith
length-digits (suc fuel) n out = ground (arith, length-digits fuel (n / 10) ((b'0' + n % 10) ∷ out))

length-decimal : (n : ℕ) → length (decimal n) ≤ 10
unfolding decimal
length-decimal n = ground (arith, length-digits 10 n [])

-- The `char length[16]` of the callers is long enough.
pub length-print_int : (n : ℕ) → length (print_int n) ≤ 11
unfolding print_int
length-print_int n =
    ground (arith, length-decimal (n % 2 ^ 32), length-decimal (2 ^ 32 - n % 2 ^ 32))

value-digits : (fuel n : ℕ) (out : Text) → n < 10 ^ fuel → value (digits fuel n out) 0 ≡ value out n
unfolding digits value
value-digits zero n out h = ap (value out) (omega arith)
value-digits (suc fuel) n out h = elim (Bool-cases (n == 0)) [
  | inl e ↦ rw (e, value) (ap (value out) (sym ((==_iff n 0).0 e)))
  | inr e ↦ rw e (
      value-digits fuel (n / 10) ((b'0' + n % 10) ∷ out) (omega arith)
      ∙ ap (value out) (omega arith))
]

pub value-decimal : (n : ℕ) → n < 2 ^ 31 → value (decimal n) 0 ≡ n
unfolding decimal value
value-decimal n h = elim (Bool-cases (n == 0)) [
  | inl e ↦ rw e (sym ((==_iff n 0).0 e))
  | inr e ↦ rw e (value-digits 10 n [] (omega arith))
]

-- A length below 2 GiB is printed as the number it is.
pub value-print_int : (n : ℕ) → n < 2 ^ 31 → value (print_int n) 0 ≡ n
unfolding print_int
value-print_int n h =
    let small : n % 2 ^ 32 ≡ n = omega arith in rw (small, lt→ltb n (2 ^ 31) h) (value-decimal n h)
