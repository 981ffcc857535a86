-- ===== src/Date/Width.antt =====
-- How long the dates of src/http-date.c are.
use sighttpd.Prelude.{
  ℕ, zero, suc, ◌+◌, ◌-◌, ◌/◌, ◌%◌, ◌^◌, ◌<◌, ◌≤◌, ◌≡◌, refl, Text, some, List, [], ◌∷◌, arith,
  length, length-append, print_int, decimal, digits, lt→ltb, All,
}
use sighttpd.Date.{
  Tm, wdays, months, entry, fill, padded, two_digits, year_digits, date_text, httpdate_snprint,
}

-- The fields as gmtime(3) gives them, for a year of four digits.
pub record IsTm (g : Tm) : Type 0 where
  pub sec : g.tm_sec < 61
  pub min : g.tm_min < 60
  pub hour : g.tm_hour < 24
  pub mday : g.tm_mday < 32
  pub mon : g.tm_mon < 12
  pub year : g.tm_year + 1900 < 10000
  pub wday : g.tm_wday < 7

length-fill : (filler k : ℕ) (t : Text) → length (fill filler k t) ≡ k + length t
unfolding fill
length-fill filler zero t = omega arith
length-fill filler (suc k) t = omega (arith, length-fill filler k (filler ∷ t))

length-padded :
    (filler width : ℕ) (t : Text) → length t ≤ width → length (padded filler width t) ≡ width
unfolding padded
length-padded filler width t h = omega (arith, length-fill filler (width - length t) t)

-- A number of at most `k` digits.
length-digits_few :
    (fuel k n : ℕ) (out : Text) → n < 10 ^ k → length (digits fuel n out) ≤ k + length out
unfolding digits
length-digits_few zero k n out h = omega arith
length-digits_few (suc fuel) zero n out h = ground arith
length-digits_few (suc fuel) (suc k) n out h =
    ground (arith, length-digits_few fuel k (n / 10) ((b'0' + n % 10) ∷ out) (tenth k n h))
  where
    tenth : (k n : ℕ) → n < 10 ^ suc k → n / 10 < 10 ^ k
    tenth k n h = omega arith

length-decimal_few : (k n : ℕ) → 0 < k → n < 10 ^ k → length (decimal n) ≤ k
unfolding decimal
length-decimal_few k n p h = ground (arith, length-digits_few 10 k n [] h)

length-print_int_few : (k n : ℕ) → 0 < k → n < 10 ^ k → n < 2 ^ 31 → length (print_int n) ≤ k
unfolding print_int
length-print_int_few k n p h l =
    let small : n % 2 ^ 32 ≡ n = omega arith in
    rw (small, lt→ltb n (2 ^ 31) l) (length-decimal_few k n p h)

length-two_digits : (n : ℕ) → n < 100 → length (two_digits n) ≡ 2
unfolding two_digits
length-two_digits n h =
    length-padded b'0' 2 (print_int n) (length-print_int_few 2 n (omega arith) h (omega arith))

length-year_digits : (n : ℕ) → n < 10000 → length (year_digits n) ≡ 4
unfolding year_digits
length-year_digits n h =
    length-padded b' ' 4 (print_int n) (length-print_int_few 4 n (omega arith) h (omega arith))

length-date_text :
    (wday month : Text) (g : Tm)
    → IsTm g
    → length wday ≡ 3
    → length month ≡ 3
    → length (date_text wday month g) ≡ 29
unfolding date_text
length-date_text wday month g t w m =
    let a = length-two_digits g.tm_mday (omega (arith, t.mday)) in
    let b = length-year_digits (g.tm_year + 1900) t.year in
    let c = length-two_digits g.tm_hour (omega (arith, t.hour)) in
    let d = length-two_digits g.tm_min (omega (arith, t.min)) in
    let e = length-two_digits g.tm_sec (omega (arith, t.sec)) in
    grind (arith, length-append, a, b, c, d, e, w, m)

-- An element of an array of names of three bytes.
entry_three :
    (names : List Text) (i : ℕ)
    → All (λ t. length t ≡ 3) names
    → i < length names
    → (t : Text) × (entry names i ≡ some t) × (length t ≡ 3)
unfolding entry
entry_three [] i h l = absurd (omega arith)
entry_three (t ∷ names) zero (e, h) l = (t, refl, e)
entry_three (t ∷ names) (suc i) (e, h) l = entry_three names i h (omega arith)

-- For a date of gmtime(3) in a year before 10000, `httpdate_snprint` reads no name behind its arrays, and
-- writes 29 bytes, all of them into a buffer of 30 or more.
pub httpdate_snprint_lem :
    (n : ℕ) (g : Tm)
    → IsTm g
    → 29 < n
    → (t : Text) × (httpdate_snprint n g ≡ some (t, 29)) × (length t ≡ 29)
unfolding httpdate_snprint
httpdate_snprint_lem n g h l =
    let (w, ew, lw) =
      entry_three wdays g.tm_wday (refl, (refl, (refl, (refl, (refl, (refl, (refl, tt)))))))
        h.wday in
    let (m, em, lm) =
      entry_three months g.tm_mon
        (
          refl,
          (
            refl,
            (refl, (refl, (refl, (refl, (refl, (refl, (refl, (refl, (refl, (refl, tt)))))))))),
          ),
        )
        h.mon in
    let size = length-date_text w m g h lw lm in
    (date_text w m g, rw (ew, em, size, lt→ltb 29 n l) refl, size)
