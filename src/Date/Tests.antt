-- ===== src/Date/Tests.antt =====
-- A date of the year 2009.
use sighttpd.Prelude.{◌≡◌, refl, some, arith, codes, print_int, decimal, digits}
use sighttpd.Date.{Tm, entry, fill, padded, two_digits, year_digits, date_text, httpdate_snprint}
use sighttpd.Date.Width.{IsTm}

abbrev tuesday : Tm
tuesday = record {
  tm_sec = 7;
  tm_min = 5;
  tm_hour = 14;
  tm_mday = 3;
  tm_mon = 10;
  tm_year = 109;
  tm_wday = 2;
}

printed : httpdate_snprint 256 tuesday ≡ some (codes "Tue, 03 Nov 2009 14:05:07 GMT", 29)
unfolding httpdate_snprint entry date_text two_digits year_digits padded fill print_int decimal
    digits
printed = refl

tuesday-IsTm : IsTm tuesday
tuesday-IsTm = record {
  sec = omega arith;
  min = omega arith;
  hour = omega arith;
  mday = omega arith;
  mon = omega arith;
  year = omega arith;
  wday = omega arith;
}
