-- ===== src/Date.antt =====
-- `httpdate_snprint` of src/http-date.c, from what gmtime(3) gives.
pub mod Width
mod Tests
use sighttpd.Prelude.{
  ℕ, zero, suc, ◌+◌, ◌-◌, Text, Option, none, some, List, [], ◌∷◌, ◌++◌, ◌>>=◌, codes, length, take,
  print_int, ltb, if◌then◌else◌,
}

-- `struct tm`; the years are counted from 1900.
pub record Tm : Type 0 where
  pub tm_sec : ℕ
  pub tm_min : ℕ
  pub tm_hour : ℕ
  pub tm_mday : ℕ
  pub tm_mon : ℕ
  pub tm_year : ℕ
  pub tm_wday : ℕ

abbrev pub wdays : List Text
wdays =
    codes "Sun"
    ∷ codes "Mon"
    ∷ codes "Tue"
    ∷ codes "Wed"
    ∷ codes "Thu"
    ∷ codes "Fri"
    ∷ codes "Sat"
    ∷ []

abbrev pub months : List Text
months =
    codes "Jan"
    ∷ codes "Feb"
    ∷ codes "Mar"
    ∷ codes "Apr"
    ∷ codes "May"
    ∷ codes "Jun"
    ∷ codes "Jul"
    ∷ codes "Aug"
    ∷ codes "Sep"
    ∷ codes "Oct"
    ∷ codes "Nov"
    ∷ codes "Dec"
    ∷ []

-- An element of an array; `none` is a read behind it.
unfoldable pub entry : List Text → ℕ → Option Text
entry [] i = none
entry (name ∷ names) zero = some name
entry (name ∷ names) (suc i) = entry names i

unfoldable pub fill : (filler k : ℕ) → Text → Text
fill filler zero t = t
fill filler (suc k) t = fill filler k (filler ∷ t)

-- A text with what a width puts before it.
unfoldable pub padded : (filler width : ℕ) → Text → Text
padded filler width t = fill filler (width - length t) t

-- `%02d` and `%4d`
unfoldable pub two_digits : ℕ → Text
two_digits n = padded b'0' 2 (print_int n)

unfoldable pub year_digits : ℕ → Text
year_digits n = padded b' ' 4 (print_int n)

-- The text of `HTTPDATE_FMT`, whose names have the width that it gives them.
unfoldable pub date_text : (wday month : Text) → Tm → Text
date_text wday month g =
    wday
    ++ (codes ", "
        ++ (two_digits g.tm_mday
            ++ (codes " "
                ++ (month
                    ++ (codes " "
                        ++ (year_digits (g.tm_year + 1900)
                            ++ (codes " "
                                ++ (two_digits g.tm_hour
                                    ++ (codes ":"
                                        ++ (two_digits g.tm_min
                                            ++ (codes ":"
                                                ++ (two_digits g.tm_sec ++ codes " GMT"))))))))))))

-- `httpdate_snprint` into a buffer of more than 0 bytes: what is before the NUL, and the result. `none` is
-- a read behind the names.
unfoldable pub httpdate_snprint : (n : ℕ) → Tm → Option (Text × ℕ)
httpdate_snprint n g = do
  wday ← entry wdays g.tm_wday
  month ← entry months g.tm_mon
  let t = date_text wday month g
  some (if ltb (length t) n then t else take (n - 1) t, length t)
