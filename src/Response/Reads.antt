-- ===== src/Response/Reads.antt =====
-- What `http_response` of src/http-response.c makes of a request that comes in one read or in two.
use sighttpd.Prelude.{
  ℕ, ◌+◌, ◌-◌, ◌<◌, ◌≡◌, refl, ◌∙◌, sym, ap, Text, false, none, some, List, [], ◌∷◌, ◌++◌, arith,
  take, drop, length, ◌==◌, All-append, append_assoc, take-length-append, take_congr,
  drop-length-append,
}
use sighttpd.Params.{Param, Params}
use sighttpd.Params.Headers.{parsed, parse_headers}
use sighttpd.Request.{Request, fail, done, parse}
use sighttpd.Ringbuffer.Transfer.{ReadAnswer, got}
use sighttpd.Response.Serve.{
  served, unset, c_string, use_line, request_line, answered, read_headers, use_input, http_response,
}
use sighttpd.Response.Behind.{
  HasNoNul, shifted, shifted-HasNoNul, length-shifted, c_string_lem, parse_le, parse_headers-longer,
}
use sighttpd.Response.Rounds.{
  headers_lem, no_headers_lem, conn, no_line_lem, read_lem, serve_ended, serve_again, first_round,
}

-- A text without NUL that comes in one read, fits the buffer with a NUL and has a request line and then
-- headers with their empty line, of at least one field: `http_response` calls `respond` with the
-- request that `http_request_parse` gives and the fields that `params_new_parse` gives of what is behind the
-- request line, whatever else the buffer held and the client sends.
pub http_response_one_read :
    (fuel : ℕ) (s t : Text) (answers : List ReadAnswer) (n : ℕ) (q : Request) (p : Param)
    (ps : Params)
    → HasNoNul t
    → 0 < length t
    → length t < 8192
    → parse t ≡ done n q
    → parse_headers fuel (drop n t) ≡ parsed (p ∷ ps)
    → http_response fuel s false (got t ∷ answers) ≡ served q (p ∷ ps)
unfolding http_response answered
http_response_one_read fuel s t answers n q p ps h k l e f =
    let (rest, r) = first_round fuel s t n q h k l e in
    serve_ended fuel (got t) answers (conn s 0 8192 none) (served q (p ∷ ps)) (
      r
      ∙ headers_lem fuel (shifted n t) (conn (shifted n t ++ (0 ∷ rest)) 0 8192 (some q)) p ps
          (parse_headers-longer fuel (drop n t) (drop (length t - n) t) p ps f))

take_kept : (x y : Text) → take (0 + length x) (x ++ y) ≡ x
take_kept x y = take_congr (0 + length x) (length x) (x ++ y) (omega arith) ∙ take-length-append x y

-- A request whose headers end in the second read `u` only: what `params_new_parse` is given is what is behind
-- the request line in the first read `t`, then the last bytes of `t` once more, as many as the request
-- line has, and then `u`.
pub http_response_two_reads :
    (fuel : ℕ) (s t u : Text) (answers : List ReadAnswer) (n : ℕ) (q : Request) (p : Param)
    (ps : Params)
    → HasNoNul t
    → HasNoNul u
    → 0 < length t
    → 0 < length u
    → length t + length u < 8192
    → parse t ≡ done n q
    → parse_headers fuel (drop n t ++ drop (length t - n) t) ≡ parsed []
    → parse_headers fuel ((drop n t ++ drop (length t - n) t) ++ u) ≡ parsed (p ∷ ps)
    → http_response fuel s false (got t ∷ got u ∷ answers) ≡ served q (p ∷ ps)
unfolding http_response answered use_input use_line request_line
http_response_two_reads fuel s t u answers n q p ps h i k m l e f g =
    let x = shifted n t in
    let (rest, r) = first_round fuel s t n q h k (omega arith) e in
    let y = x ++ (0 ∷ rest) in
    let size = length-shifted n t (parse_le t n q e) in
    let plain = shifted-HasNoNul n t h in
    let one = r ∙ no_headers_lem fuel x (conn y 0 8192 (some q)) x f (c_string_lem x rest plain) in
    let (rest', r') =
      read_lem fuel x u y (0 + length x) (8192 - length x) (some q) (take_kept x (0 ∷ rest)) m
        (omega (arith, size)) (omega (arith, size)) in
    let z = x ++ (u ++ (0 ∷ rest')) in
    let two : c_string z ≡ some (x ++ u) =
      ap c_string (sym (append_assoc x u (0 ∷ rest')))
      ∙ c_string_lem (x ++ u) rest' (All-append (λ c. (c == 0) ≡ false) x u plain i) in
    let c' = conn z (0 + length x) (8192 - length x) (some q) in
    serve_again fuel (got t) (got u ∷ answers) (conn s 0 8192 none)
      (conn y (0 + length x) (8192 - length x) (some q)) one
    ∙ serve_ended fuel (got u) answers (conn y (0 + length x) (8192 - length x) (some q))
        (served q (p ∷ ps))
        (r' ∙ (ap (λ o. read_headers fuel o c') two ∙ headers_lem fuel (x ++ u) c' p ps g))

-- Two reads in neither of which `http_request_parse` finds a request line, and of which only both together
-- have headers for `params_new_parse`: `respond` is called with a request that was never set.
pub http_response_unset_lem :
    (fuel : ℕ) (s t u : Text) (answers : List ReadAnswer) (p : Param) (ps : Params)
    → HasNoNul t
    → HasNoNul u
    → 0 < length t
    → 0 < length u
    → length t + length u < 8192
    → parse t ≡ fail
    → parse u ≡ fail
    → parse_headers fuel t ≡ parsed []
    → parse_headers fuel (t ++ u) ≡ parsed (p ∷ ps)
    → http_response fuel s false (got t ∷ got u ∷ answers) ≡ unset (p ∷ ps)
unfolding http_response answered
http_response_unset_lem fuel s t u answers p ps h i k m l e e' f g =
    let (rest, r) = read_lem fuel [] t s 0 8192 none refl k (omega arith) (omega arith) in
    let y = t ++ (0 ∷ rest) in
    let whole = c_string_lem t rest h in
    let one =
      r
      ∙ (no_line_lem fuel (length t) y t 0 8192 whole e
          ∙ (ap (λ o. read_headers fuel o (conn y 0 8192 none)) whole
              ∙ no_headers_lem fuel t (conn y 0 8192 none) t f whole)) in
    let cur = 0 + length t in
    let rem = 8192 - length t in
    let (rest', r') =
      read_lem fuel t u y cur rem none (take_kept t (0 ∷ rest)) m (omega arith) (omega arith) in
    let z = t ++ (u ++ (0 ∷ rest')) in
    let behind : c_string (drop cur z) ≡ some u =
      ap (λ k. c_string (drop k z)) {x = cur} {y = length t} (omega arith)
      ∙ (ap c_string (drop-length-append t (u ++ (0 ∷ rest'))) ∙ c_string_lem u rest' i) in
    let two : c_string z ≡ some (t ++ u) =
      ap c_string (sym (append_assoc t u (0 ∷ rest')))
      ∙ c_string_lem (t ++ u) rest' (All-append (λ c. (c == 0) ≡ false) t u h i) in
    serve_again fuel (got t) (got u ∷ answers) (conn s 0 8192 none) (conn y cur rem none) one
    ∙ serve_ended fuel (got u) answers (conn y cur rem none) (unset (p ∷ ps)) (
        r'
        ∙ (no_line_lem fuel (length u) z u cur rem behind e'
            ∙ (ap (λ o. read_headers fuel o (conn z cur rem none)) two
                ∙ headers_lem fuel (t ++ u) (conn z cur rem none) p ps g)))
