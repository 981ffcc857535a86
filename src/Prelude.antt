-- ===== src/Prelude.antt =====
-- The names that the other modules share: those of the libraries, and those of its children.
mod Tests
mod Lists
mod CString
mod Decimal
mod Scan
mod Atoi
pub use Tests.*
pub use Lists.*
unfoldable pub use CString.*
unfoldable pub use Decimal.{print_int, decimal, digits, value}
unfoldable pub use Scan.{
  int_lt, is_digit, digit_of, scan_digits, positive, negative, atoi_sign, atoi, scan_hex, scan_zero,
  scan_number, scan_sign, hex_digits, pad_four, scan_int, scan_word, scan_char, print_hex,
}
pub use Scan.{length-print_hex, atoi_lt, ScansInt, scan_int-ScansInt}
pub use Atoi.{AreDigits, decimal_nonempty, decimal-AreDigits, atoi-decimal}
pub use Decimal.{length-print_int, value-print_int}
pub use Prim.Native.Nat.{ℕ, zero, suc, ◌+◌, ◌-◌, ◌*◌, ◌/◌, ◌%◌, ◌^◌, ◌≤◌, ◌<◌, min, max}
pub use mathlib.Core.Path.{◌≡◌, refl, sym, ap, ap₂, ◌∙◌, subst, fun_ext}
pub use mathlib.Core.Logic.{◌≢◌, ◌↔◌, ◌⊎◌, inl, inr}
pub use mathlib.Core.Bool.{Bool, true, false, not, ◌&&◌, ◌||◌}
pub use mathlib.Core.Option.{Option, none, some}
pub use mathlib.Core.List.{List, [], ◌∷◌, ◌++◌, map, append-nil, append_assoc}
pub use native.Mathlib.Omega.{arith}
