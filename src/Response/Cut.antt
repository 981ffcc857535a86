-- ===== src/Response/Cut.antt =====
-- What `http_response` of src/http-response.c makes of a request line that comes in two reads.
use sighttpd.Prelude.{
  ℕ, ◌+◌, ◌<◌, ◌≡◌, ◌≢◌, Text, false, List, [], ◌∷◌, ◌++◌, arith, codes, take, drop, length,
  length-append, length-drop, Avoids,
}
use sighttpd.Params.{Param, Params}
use sighttpd.Params.Headers.{parsed, parse_headers}
use sighttpd.Request.{Method, Version, extension}
use sighttpd.Request.RoundTrip.{method_name, version_name, length-version_name}
use sighttpd.Request.Cut.{line_start, parse-line_start, parse-line_rest}
use sighttpd.Ringbuffer.Transfer.{ReadAnswer, got}
use sighttpd.Response.Serve.{unset, http_response}
use sighttpd.Response.Behind.{HasNoNul}
use sighttpd.Response.Reads.{http_response_unset_lem}

0-lt-length-line_start :
    (m : Method) (path : Text) (v : Version) (k : ℕ) → 0 < length (line_start m path v k)
0-lt-length-line_start m path v k = omega (
  arith,
  length-append (method_name m) (codes " " ++ (path ++ (codes " " ++ take k (version_name v)))),
)

-- A request line, of a known method and a path without SP, whose version is cut by the end of the first read,
-- before any of its bytes: where only the two reads together, which hold no NUL and fit the buffer with one, have
-- headers for `params_new_parse`, `respond` is called with a request that was never set.
pub http_response_unset :
    (fuel : ℕ) (s : Text) (m : Method) (path : Text) (v : Version) (k : ℕ) (rest : Text)
    (answers : List ReadAnswer) (p : Param) (ps : Params)
    → m ≢ extension
    → Avoids (codes " ") path
    → k < 8
    → let t = line_start m path v k in
      let u = drop k (version_name v) ++ rest in
      HasNoNul t
      → HasNoNul u
      → length t + length u < 8192
      → parse_headers fuel t ≡ parsed []
      → parse_headers fuel (t ++ u) ≡ parsed (p ∷ ps)
      → http_response fuel s false (got t ∷ got u ∷ answers) ≡ unset (p ∷ ps)
http_response_unset fuel s m path v k rest answers p ps known h few i j l f g =
    let some_rest : 0 < length (drop k (version_name v) ++ rest) = omega (
      arith,
      length-append (drop k (version_name v)) rest,
      length-drop k (version_name v),
      length-version_name v,
    ) in
    http_response_unset_lem fuel s (line_start m path v k) (drop k (version_name v) ++ rest) answers
      p ps i j (0-lt-length-line_start m path v k) some_rest l
      (parse-line_start m path v k known h few) (parse-line_rest v k rest few) f g
