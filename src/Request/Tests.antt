-- ===== src/Request/Tests.antt =====
-- A run of src/http-reqline.c.
use sighttpd.Prelude.{◌+◌, ◌++◌, ◌≡◌, ◌≢◌, refl, arith, if◌then◌else◌, ltb, codes, length}
use sighttpd.Request.{get, extension, http_1_1, fail, done, crlf, parse}
use sighttpd.Request.RoundTrip.{reqline, parse-reqline}

get-not_extension : get ≢ extension
get-not_extension e = ground arith

parse-reqline_example : parse (reqline get (codes "/a") http_1_1 ++ (crlf ++ codes "Host: h")) ≡ (
    if ltb 2 (length crlf)
    then fail
    else done (length (reqline get (codes "/a") http_1_1) + length crlf) (record {
      original_reqline = reqline get (codes "/a") http_1_1;
      method = get;
      path = codes "/a";
      version = http_1_1;
    }))
parse-reqline_example =
    parse-reqline crlf (codes "Host: h") (refl, (refl, tt)) refl refl get (codes "/a") http_1_1
      get-not_extension (refl, (refl, tt))
