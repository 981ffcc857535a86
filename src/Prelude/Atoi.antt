-- ===== src/Prelude/Atoi.antt =====
-- `atoi` reads back what `%d` prints.
use Prim.Native.Nat.{ℕ, zero, suc, ◌+◌, ◌-◌, ◌*◌, ◌/◌, ◌%◌, ◌^◌, ◌<◌}
use mathlib.Core.Path.{◌≡◌, refl, ap, ◌∙◌, sym}
use mathlib.Core.Bool.{true, false}
use mathlib.Core.Option.{some}
use mathlib.Core.Logic.{◌≢◌}
use mathlib.Core.List.{[], ◌∷◌}
use native.Mathlib.Omega.{arith}
use sighttpd.Prelude.Tests.{◌==◌}
use sighttpd.Prelude.Lists.{All, drop}
use sighttpd.Prelude.CString.{Text, strspn}
use sighttpd.Prelude.Decimal.{digits, decimal, value, value-decimal}
use sighttpd.Prelude.Scan.{white, is_digit, digit_of, scan_digits, positive, atoi_sign, atoi}

abbrev pub AreDigits : Text → Type 0
AreDigits = All (λ c. is_digit c ≡ true)

digits-AreDigits : (fuel n : ℕ) (out : Text) → AreDigits out → AreDigits (digits fuel n out)
unfolding digits is_digit
digits-AreDigits zero n out h = h
digits-AreDigits (suc fuel) n out h =
    ground (arith, digits-AreDigits fuel (n / 10) ((b'0' + n % 10) ∷ out) (ground arith, h))

pub decimal-AreDigits : (n : ℕ) → AreDigits (decimal n)
unfolding decimal is_digit
decimal-AreDigits n = ground (arith, digits-AreDigits 10 n [] tt)

digit_of-ten : (c : ℕ) → is_digit c ≡ true → digit_of 10 c ≡ some (c - b'0')
unfolding digit_of is_digit
digit_of-ten c e = ground arith

pub scan_digits-value : (s : Text) (n : ℕ) → AreDigits s → scan_digits 10 s n ≡ (value s n, [])
unfolding scan_digits value
scan_digits-value [] n h = refl
scan_digits-value (c ∷ s) n (e, h) =
    rw (scan_digits, digit_of-ten c e) (scan_digits-value s (n * 10 + (c - b'0')) h)

strspn-white : (c : ℕ) (s : Text) → is_digit c ≡ true → strspn (c ∷ s) white ≡ 0
unfolding strspn is_digit
strspn-white c s e = ground arith

atoi_sign-digits :
    (c : ℕ) (s : Text) → AreDigits (c ∷ s) → atoi_sign (c ∷ s) ≡ positive (value (c ∷ s) 0)
unfolding atoi_sign is_digit
atoi_sign-digits c s h =
    let minus : (c == b'-') ≡ false = ground arith in
    let plus : (c == b'+') ≡ false = ground arith in
    rw (minus, plus) (ap (λ r. positive r.0) (scan_digits-value (c ∷ s) 0 h))

pub atoi-digits : (s : Text) → AreDigits s → atoi s ≡ positive (value s 0)
unfolding atoi atoi_sign positive value strspn
atoi-digits [] h = omega arith
atoi-digits (c ∷ s) h =
    ap (λ k. atoi_sign (drop k (c ∷ s))) (strspn-white c s h.0) ∙ atoi_sign-digits c s h

-- A number of 31 bits is read back.
pub atoi-decimal : (n : ℕ) → n < 2 ^ 31 → atoi (decimal n) ≡ n
unfolding positive
atoi-decimal n h =
    atoi-digits (decimal n) (decimal-AreDigits n) ∙ (ap positive (value-decimal n h) ∙ omega arith)

decimal_zero : decimal 0 ≢ []
unfolding decimal
decimal_zero e = absurd (ground (arith, e))

pub decimal_nonempty : (n : ℕ) → n < 2 ^ 31 → decimal n ≢ []
unfolding value
decimal_nonempty n h e =
    let nothing : n ≡ 0 = sym (value-decimal n h) ∙ ap (λ t. value t 0) e in
    decimal_zero (ap decimal (sym nothing) ∙ e)
