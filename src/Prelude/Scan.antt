-- ===== src/Prelude/Scan.antt =====
-- `atoi`, and what the source uses of `sscanf` and of `%x`. An `int` is the natural below 2 ^ 32 that
-- stands for it in two's complement; a number is read as a `long` and cut.
use Prim.Native.Nat.{ℕ, zero, suc, ◌+◌, ◌-◌, ◌*◌, ◌/◌, ◌%◌, ◌^◌, ◌≤◌, ◌<◌, min}
use mathlib.Core.Bool.{Bool, ◌&&◌}
use mathlib.Core.Logic.{inl, inr}
use mathlib.Core.Option.{Option, none, some}
use mathlib.Core.List.{[], ◌∷◌}
use native.Mathlib.Omega.{arith}
use sighttpd.Prelude.Tests.{ltb, leb, ◌==◌, if◌then◌else◌, ◌>>=◌, Bool-cases}
use sighttpd.Prelude.Lists.{length, take, drop}
use sighttpd.Prelude.CString.{Text, strspn, strcspn, tolower}

-- `a < b` for two `int`s.
unfoldable pub int_lt : ℕ → ℕ → Bool
int_lt a b = ltb ((a + 2 ^ 31) % 2 ^ 32) ((b + 2 ^ 31) % 2 ^ 32)

-- `isspace` in the locale "C"
abbrev pub white : Text
white = 32 ∷ 9 ∷ 10 ∷ 11 ∷ 12 ∷ 13 ∷ []

abbrev pub skip_white : Text → Text
skip_white s = drop (strspn s white) s

unfoldable pub is_digit : ℕ → Bool
is_digit c = leb b'0' c && leb c b'9'

-- What a digit stands for in a base of up to 16.
unfoldable pub digit_of : ℕ → ℕ → Option ℕ
unfolding is_digit
digit_of base c =
    let d =
      if is_digit c
      then c - b'0'
      else if leb b'a' (tolower c) && leb (tolower c) b'f'
      then tolower c - 87
      else base in
    if ltb d base then some d else none

-- The number of the digits at the start, and the text behind them.
unfoldable pub scan_digits : ℕ → Text → ℕ → ℕ × Text
scan_digits base [] n = (n, [])
scan_digits base (c ∷ s) n = elim (digit_of base c) [
  | none ↦ (n, c ∷ s)
  | some d ↦ scan_digits base s (n * base + d)
]

-- A magnitude as a `long`, where it stops, and cut to an `int`.
unfoldable pub positive : ℕ → ℕ
positive n = min n (2 ^ 63 - 1) % 2 ^ 32

unfoldable pub negative : ℕ → ℕ
negative n = (2 ^ 32 - min n (2 ^ 63) % 2 ^ 32) % 2 ^ 32

-- `atoi` behind the white space.
unfoldable pub atoi_sign : Text → ℕ
atoi_sign [] = 0
atoi_sign (c ∷ s) =
    if c == b'-'
    then negative (scan_digits 10 s 0).0
    else if c == b'+'
    then positive (scan_digits 10 s 0).0
    else positive (scan_digits 10 (c ∷ s) 0).0

unfoldable pub atoi : Text → ℕ
atoi s = atoi_sign (skip_white s)

-- `%i`: hexadecimal behind 0x, octal behind 0, else decimal; the number and the text behind it.
unfoldable pub scan_hex : Text → Option (ℕ × Text)
scan_hex s = let r = scan_digits 16 s 0 in if length r.1 == length s then none else some r

unfoldable pub scan_zero : Text → Option (ℕ × Text)
scan_zero [] = some (0, [])
scan_zero (c ∷ s) = if tolower c == b'x' then scan_hex s else some (scan_digits 8 (c ∷ s) 0)

unfoldable pub scan_number : Text → Option (ℕ × Text)
scan_number [] = none
scan_number (c ∷ s) =
    if c == b'0' then scan_zero s else if is_digit c then some (scan_digits 10 (c ∷ s) 0) else none

unfoldable pub scan_sign : Text → Option (ℕ × Text)
scan_sign [] = none
scan_sign (c ∷ s) =
    if c == b'-'
    then (do (n, rest) ← scan_number s; some (negative n, rest))
    else if c == b'+'
    then (do (n, rest) ← scan_number s; some (positive n, rest))
    else do (n, rest) ← scan_number (c ∷ s); some (positive n, rest)

unfoldable pub scan_int : Text → Option (ℕ × Text)
scan_int s = scan_sign (skip_white s)

-- `%s`
unfoldable pub scan_word : Text → Option (Text × Text)
scan_word s =
    let t = skip_white s in
    let n = strcspn t white in if n == 0 then none else some (take n t, drop n t)

-- One character of the format.
unfoldable pub scan_char : ℕ → Text → Option Text
scan_char d [] = none
scan_char d (c ∷ s) = if c == d then some s else none

-- `%x`, of at most eight digits
abbrev pub hex_char : ℕ → ℕ
hex_char d = if ltb d 10 then b'0' + d else b'a' + (d - 10)

unfoldable pub hex_digits : ℕ → ℕ → Text → Text
hex_digits zero n out = out
hex_digits (suc fuel) n out =
    let rest = hex_digits fuel (n / 16) (hex_char (n % 16) ∷ out) in if n == 0 then out else rest

-- The zeros that `%04x` puts before a text of fewer than four digits.
unfoldable pub pad_four : Text → Text
pad_four [] = b'0' ∷ b'0' ∷ b'0' ∷ b'0' ∷ []
pad_four (a ∷ []) = b'0' ∷ b'0' ∷ b'0' ∷ a ∷ []
pad_four (a ∷ b ∷ []) = b'0' ∷ b'0' ∷ a ∷ b ∷ []
pad_four (a ∷ b ∷ c ∷ s) = if 0 == length s then b'0' ∷ a ∷ b ∷ c ∷ [] else a ∷ b ∷ c ∷ s

-- `%04x`
unfoldable pub print_hex : ℕ → Text
print_hex n = pad_four (hex_digits 8 (n % 2 ^ 32) [])

length-hex_digits : (fuel n : ℕ) (out : Text) → length (hex_digits fuel n out) ≤ fuel + length out
unfolding hex_digits
length-hex_digits zero n out = omega arith
length-hex_digits (suc fuel) n out =
    ground (arith, length-hex_digits fuel (n / 16) (hex_char (n % 16) ∷ out))

length-pad_four : (s : Text) → length s ≤ 8 → length (pad_four s) ≤ 8
unfolding pad_four
length-pad_four [] h = omega arith
length-pad_four (a ∷ []) h = omega arith
length-pad_four (a ∷ b ∷ []) h = omega arith
length-pad_four (a ∷ b ∷ c ∷ s) h = ground arith

pub length-print_hex : (n : ℕ) → length (print_hex n) ≤ 8
unfolding print_hex
length-print_hex n =
    length-pad_four (hex_digits 8 (n % 2 ^ 32) [])
      (omega (arith, length-hex_digits 8 (n % 2 ^ 32) []))

positive_lt : (n : ℕ) → positive n < 2 ^ 32
unfolding positive
positive_lt n = omega arith

negative_lt : (n : ℕ) → negative n < 2 ^ 32
unfolding negative
negative_lt n = omega arith

atoi_sign_lt : (s : Text) → atoi_sign s < 2 ^ 32
unfolding atoi_sign
atoi_sign_lt [] = omega arith
atoi_sign_lt (c ∷ s) = ground (
  arith,
  negative_lt (scan_digits 10 s 0).0,
  positive_lt (scan_digits 10 s 0).0,
  positive_lt (scan_digits 10 (c ∷ s) 0).0,
)

pub atoi_lt : (s : Text) → atoi s < 2 ^ 32
unfolding atoi
atoi_lt s = atoi_sign_lt (skip_white s)

-- What is scanned, if anything, is an `int`.
abbrev pub ScansInt : Option (ℕ × Text) → Type 0
ScansInt none = Unit
ScansInt (some r) = r.0 < 2 ^ 32

with_sign :
    (sign : ℕ → ℕ) (o : Option (ℕ × Text))
    → ((n : ℕ) → sign n < 2 ^ 32)
    → ScansInt (do (n, rest) ← o; some (sign n, rest))
with_sign sign none h = tt
with_sign sign (some (n, rest)) h = h n

scan_sign-ScansInt : (s : Text) → ScansInt (scan_sign s)
unfolding scan_sign
scan_sign-ScansInt [] = tt
scan_sign-ScansInt (c ∷ s) = elim (Bool-cases (c == b'-')) [
  | inl e ↦ rw e (with_sign negative (scan_number s) negative_lt)
  | inr e ↦ rw e (elim (Bool-cases (c == b'+')) [
    | inl f ↦ rw f (with_sign positive (scan_number s) positive_lt)
    | inr f ↦ rw f (with_sign positive (scan_number (c ∷ s)) positive_lt)
  ])
]

pub scan_int-ScansInt : (s : Text) → ScansInt (scan_int s)
unfolding scan_int
scan_int-ScansInt s = scan_sign-ScansInt (skip_white s)
