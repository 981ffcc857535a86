-- ===== src/Params/Tests.antt =====
-- Runs of src/params.c.
use sighttpd.Prelude.{
  ◌⊎◌, inl, List, All, Text, suc, ◌+◌, ◌-◌, ◌≤◌, ◌<◌, min, ◌≡◌, refl, arith, none, some, [], ◌∷◌,
  ◌++◌, ◌==◌, ltb, inr, length, take, codes, strcase_eq, if◌then◌else◌, ◌>>=◌, lower, tolower,
  text_eq, strcspn,
}
use sighttpd.Params.{Param, Params, param_new, get, append, remove}
use sighttpd.Params.Lookup.{combined, get-append}
use sighttpd.Params.Unique.{IsUnique, has_exact, get-remove}
use sighttpd.Params.Print.{
  query, headers, crlf, line, text, snprint, printed, int_end, snprint-headers, snprint-query,
}
use sighttpd.Params.Parse.{parse_delim, parse_query}
use sighttpd.Params.Parse.Loop.{IsStuck, parse_delim-diverges}
use sighttpd.Params.Parse.RoundTrip.{IsQueryItem, parse_query-snprint}
use sighttpd.Params.Headers.{Canonical, null, canonical, headers_canonicalize}
use sighttpd.Params.Headers.Fits.{IsCrlf, headers_canonicalize-fits}
use sighttpd.Params.Headers.Lines.{
  Word, inner, last, lf_lines, IsWord, headers_canonicalize-lf_lines,
}

-- `Allow: GET` and `Host: h`
abbrev allow : Param
allow = param_new (codes "Allow") (codes "GET")

abbrev host : Param
host = param_new (codes "Host") (codes "h")

abbrev two : Params
two = allow ∷ host ∷ []

two-IsUnique : IsUnique two
unfolding get strcase_eq lower tolower text_eq
two-IsUnique = (refl, (refl, tt))

get-append_example :
    get (append two (some (codes "allow")) (some (codes "HEAD"))) (codes "ALLOW") ≡ (
      if strcase_eq (codes "allow") (codes "ALLOW")
      then some (combined (get two (codes "allow")) (codes "HEAD"))
      else get two (codes "ALLOW"))
get-append_example = get-append two (codes "allow") (codes "HEAD") (codes "ALLOW")

get-remove_example : get (remove two (codes "Host")) (codes "host") ≡ (
    if has_exact two (codes "Host")
    then (if strcase_eq (codes "Host") (codes "host") then none else get two (codes "host"))
    else get two (codes "host"))
get-remove_example = get-remove two (codes "Host") (codes "host") two-IsUnique

headers_lt : length (printed headers two) + 2 < int_end
unfolding printed line
headers_lt = omega arith

snprint-headers_example :
    snprint 1024 two headers
    ≡ some (
      (if ltb (length (printed headers two) + 2) 1024
          then some (printed headers two ++ crlf)
          else some (take 1023 (printed headers two))),
      length (printed headers two) + 2,
    )
snprint-headers_example =
    snprint-headers 1024 allow (host ∷ []) (omega arith) (omega arith) headers_lt

printed_lt : length (printed query two) < int_end
unfolding printed line
printed_lt = omega arith

snprint-query_example : snprint 16 two query ≡ (
    if length (printed query two) == 17
    then none
    else some (
      some (take (min (length (printed query two) - 1) 15) (printed query two)),
      length (printed query two) - 1,
    ))
snprint-query_example = snprint-query 16 allow (host ∷ []) (omega arith) printed_lt

allow_item : IsQueryItem allow
allow_item = record {
  named = λ e. ground arith;
  key_val = (refl, (refl, (refl, (refl, (refl, tt)))));
  key_end = (refl, (refl, (refl, (refl, (refl, tt)))));
  value_val = refl;
  value_end = (refl, (refl, (refl, tt)));
}

host_item : IsQueryItem host
host_item = record {
  named = λ e. ground arith;
  key_val = (refl, (refl, (refl, (refl, tt))));
  key_end = (refl, (refl, (refl, (refl, tt))));
  value_val = refl;
  value_end = (refl, tt);
}

two_fits : length (printed query two) ≤ 64
unfolding printed line
two_fits = omega arith

parse_query-snprint_example :
    (snprint 64 two query >>= λ r. parse_query (suc (suc (length (text r.0)))) (text r.0) r.1)
    ≡ some two
parse_query-snprint_example =
    parse_query-snprint 64 allow (host ∷ []) (allow_item, (host_item, tt)) two-IsUnique two_fits
      printed_lt

-- The query of `GET /kongou?a`
a_IsStuck : IsStuck (codes "=") (codes "&") (codes "a")
unfolding strcspn
a_IsStuck = (omega arith, inr (omega arith))

parse_delim-diverges_example : parse_delim 50 (codes "=") (codes "&") (codes "a") [] ≡ none
parse_delim-diverges_example =
    parse_delim-diverges 50 (codes "=") (codes "&") (codes "a") [] a_IsStuck

-- The lines "A: b" and "C: d"
abbrev lf_words : List Word
lf_words = inner (codes "A:") ∷ last (codes "b") ∷ inner (codes "C:") ∷ last (codes "d") ∷ []

lf_words-AreWords : All IsWord lf_words
lf_words-AreWords = (
  record { nonempty = λ e. ground (arith, e); solid = (refl, (refl, tt)) },
  (
    record { nonempty = λ e. ground (arith, e); solid = (refl, tt) },
    (
      record { nonempty = λ e. ground (arith, e); solid = (refl, (refl, tt)) },
      (record { nonempty = λ e. ground (arith, e); solid = (refl, tt) }, tt),
    ),
  ),
)

headers_canonicalize-lf_lines_example :
    headers_canonicalize 9 (lf_lines lf_words) ≡ Canonical.overflow
headers_canonicalize-lf_lines_example =
    headers_canonicalize-lf_lines lf_words 9 lf_words-AreWords (omega arith) (omega arith)

a_header : IsCrlf (codes "A: b" ++ crlf)
a_header = inr (refl, inr (refl, inr (refl, inr (refl, inl (refl, refl, tt)))))

headers_canonicalize-fits_example :
    (headers_canonicalize 9 (codes "A: b" ++ crlf) ≡ null)
    ⊎ ((t : Text) × (headers_canonicalize 9 (codes "A: b" ++ crlf) ≡ canonical t))
headers_canonicalize-fits_example =
    headers_canonicalize-fits (codes "A: b" ++ crlf) 9 a_header (omega arith)
