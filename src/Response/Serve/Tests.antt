-- ===== src/Response/Serve/Tests.antt =====
-- Requests for src/http-response.c that come in one read and in two.
use sighttpd.Prelude.{
  ◌-◌, ◌+◌, ◌<◌, ◌≡◌, refl, Text, false, [], ◌∷◌, ◌++◌, arith, codes, drop, length, text_eq,
  strcase_eq, lower, tolower, strcspn, strspn, strn_eq,
}
use sighttpd.Params.{Param, param_new, append, append_text}
use sighttpd.Params.Print.{crlf}
use sighttpd.Params.Parse.{parse_delim, item_value, after_item}
use sighttpd.Params.Headers.{
  parsed, parse_headers, headers_canonicalize, canonicalize, finish, count, word_out, ends_headers,
}
use sighttpd.Request.{
  Request, get, http_1_1, done, parse, method_of, parse_path, parse_version, version_of,
}
use sighttpd.Ringbuffer.Transfer.{got}
use sighttpd.Response.Serve.{served, unset, http_response}
use sighttpd.Response.Behind.{HasNoNul}
use sighttpd.Response.Reads.{http_response_one_read, http_response_two_reads}
use sighttpd.Response.Cut.{http_response_unset}
use sighttpd.Request.RoundTrip.{method_name, version_name}
use sighttpd.Request.Cut.{line_start}

abbrev get_a : Request
get_a = record {
  original_reqline = codes "GET /a HTTP/1.1";
  method = get;
  path = codes "/a";
  version = http_1_1;
}

abbrev whole : Text
whole = codes "GET /a HTTP/1.1" ++ (crlf ++ (codes "Host: example" ++ (crlf ++ crlf)))

abbrev front : Text
front = codes "GET /a HTTP/1.1" ++ (crlf ++ codes "Host: exam")

abbrev back : Text
back = codes "ple" ++ (crlf ++ crlf)

abbrev cut : Text
cut = line_start get (codes "/a") http_1_1 2

abbrev behind : Text
behind = crlf ++ (codes "Host: example" ++ (crlf ++ crlf))

abbrev rest : Text
rest = drop 2 (version_name http_1_1) ++ behind

abbrev host : Param
host = param_new (codes "Host") (codes "example")

whole_line : parse whole ≡ done 17 get_a
unfolding parse_headers headers_canonicalize canonicalize finish count word_out ends_headers strcspn
    strspn strn_eq parse_delim item_value after_item append append_text strcase_eq lower tolower
    text_eq parse method_of parse_path parse_version version_of
whole_line = refl

whole_headers : parse_headers 60 (drop 17 whole) ≡ parsed (host ∷ [])
unfolding parse_headers headers_canonicalize canonicalize finish count word_out ends_headers strcspn
    strspn strn_eq parse_delim item_value after_item append append_text strcase_eq lower tolower
    text_eq parse method_of parse_path parse_version version_of
whole_headers = refl

whole-HasNoNul : HasNoNul whole
whole-HasNoNul = ground arith

http_response_one_read_example :
    http_response 60 [] false (got whole ∷ []) ≡ served get_a (host ∷ [])
http_response_one_read_example =
    http_response_one_read 60 [] whole [] 17 get_a host [] whole-HasNoNul (omega arith)
      (omega arith) whole_line whole_headers

front_line : parse front ≡ done 17 get_a
unfolding parse_headers headers_canonicalize canonicalize finish count word_out ends_headers strcspn
    strspn strn_eq parse_delim item_value after_item append append_text strcase_eq lower tolower
    text_eq parse method_of parse_path parse_version version_of
front_line = refl

front_headers : parse_headers 60 (drop 17 front ++ drop (length front - 17) front) ≡ parsed []
unfolding parse_headers headers_canonicalize canonicalize finish count word_out ends_headers strcspn
    strspn strn_eq parse_delim item_value after_item append append_text strcase_eq lower tolower
    text_eq parse method_of parse_path parse_version version_of
front_headers = refl

-- The name of the host is not the one that was sent.
abbrev mixed : Param
mixed = param_new (codes "Host") (codes "examP/1.1,example")

both_headers :
    parse_headers 60 ((drop 17 front ++ drop (length front - 17) front) ++ back)
    ≡ parsed (mixed ∷ [])
unfolding parse_headers headers_canonicalize canonicalize finish count word_out ends_headers strcspn
    strspn strn_eq parse_delim item_value after_item append append_text strcase_eq lower tolower
    text_eq parse method_of parse_path parse_version version_of
both_headers = refl

front-HasNoNul : HasNoNul front
front-HasNoNul = ground arith

back-HasNoNul : HasNoNul back
back-HasNoNul = ground arith

http_response_two_reads_example :
    http_response 60 [] false (got front ∷ got back ∷ []) ≡ served get_a (mixed ∷ [])
http_response_two_reads_example =
    http_response_two_reads 60 [] front back [] 17 get_a mixed [] front-HasNoNul back-HasNoNul
      (omega arith) (omega arith) (omega arith) front_line front_headers both_headers

abbrev line : Param
line = param_new (codes "GET") (codes "/a HTTP/1.1")

cut_headers : parse_headers 60 cut ≡ parsed []
unfolding parse_headers headers_canonicalize canonicalize finish count word_out ends_headers strcspn
    strspn strn_eq parse_delim item_value after_item append append_text strcase_eq lower tolower
    text_eq method_name version_name
cut_headers = refl

rest_headers : parse_headers 60 (cut ++ rest) ≡ parsed (line ∷ host ∷ [])
unfolding parse_headers headers_canonicalize canonicalize finish count word_out ends_headers strcspn
    strspn strn_eq parse_delim item_value after_item append append_text strcase_eq lower tolower
    text_eq method_name version_name
rest_headers = refl

cut-HasNoNul : HasNoNul cut
unfolding method_name version_name
cut-HasNoNul = ground arith

rest-HasNoNul : HasNoNul rest
unfolding version_name
rest-HasNoNul = ground arith

cut_fits : length cut + length rest < 8192
unfolding method_name version_name
cut_fits = omega arith

http_response_unset_example :
    http_response 60 [] false (got cut ∷ got rest ∷ []) ≡ unset (line ∷ host ∷ [])
http_response_unset_example =
    http_response_unset 60 [] get (codes "/a") http_1_1 2 behind [] line (host ∷ [])
      (λ e. ground (arith, e)) (refl, (refl, tt)) (omega arith) cut-HasNoNul rest-HasNoNul cut_fits
      cut_headers rest_headers
