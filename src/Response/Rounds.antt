-- ===== src/Response/Rounds.antt =====
-- One round of the loop of src/http-response.c.
use sighttpd.Prelude.{
  ℕ, ◌+◌, ◌-◌, ◌≤◌, ◌<◌, ◌≡◌, refl, ◌∙◌, ap, Text, Option, none, some, List, [], ◌∷◌, ◌++◌, arith,
  take, drop, length, take_all,
}
use sighttpd.Params.{Param, Params}
use sighttpd.Params.Headers.{parsed, parse_headers}
use sighttpd.Request.{Request, fail, done, parse}
use sighttpd.Ringbuffer.Transfer.{ReadAnswer, got}
use sighttpd.Response.Serve.{
  Conn, Served, ended, again, c_string, receive, shift, take_line, parse_line, use_line,
  request_line, answered, advance, use_headers, read_headers, use_input, receive_some, round, serve,
}
use sighttpd.Response.Behind.{
  HasNoNul, shifted, receive_lem, shift_lem, shifted-HasNoNul, c_string_lem, parse_le,
}

-- How a round ends, by what it finds.
pub headers_lem :
    (fuel : ℕ) (text : Text) (c : Conn) (p : Param) (ps : Params)
    → parse_headers fuel text ≡ parsed (p ∷ ps)
    → read_headers fuel (some text) c ≡ ended (answered c.request (p ∷ ps))
unfolding read_headers use_headers
headers_lem fuel text c p ps e = rw e refl

pub no_headers_lem :
    (fuel : ℕ) (text : Text) (c : Conn) (t : Text)
    → parse_headers fuel text ≡ parsed []
    → c_string (drop c.cur c.s) ≡ some t
    → read_headers fuel (some text) c
      ≡ again (record c { cur = c.cur + length t; rem = c.rem - length t })
unfolding read_headers use_headers advance
no_headers_lem fuel text c t e f = rw (e, use_headers, f) refl

abbrev pub conn : Text → (cur rem : ℕ) → Option Request → Conn
conn s cur rem request = record { s = s; cur = cur; rem = rem; request = request }

line_lem :
    (fuel k : ℕ) (s t : Text) (cur rem n : ℕ) (q : Request)
    → c_string (drop cur s) ≡ some t
    → parse t ≡ done n q
    → use_input fuel (some k) (some (conn s cur rem none))
      ≡ read_headers fuel (c_string (shift n k s)) (conn (shift n k s) cur rem (some q))
unfolding use_input use_line request_line parse_line take_line
line_lem fuel k s t cur rem n q e f =
    let c = conn s cur rem none in
    ap (λ o. use_line fuel (parse_line (some k) o c)) e
    ∙ ap (λ o. use_line fuel (take_line (some k) o c)) f

pub no_line_lem :
    (fuel k : ℕ) (s t : Text) (cur rem : ℕ)
    → c_string (drop cur s) ≡ some t
    → parse t ≡ fail
    → use_input fuel (some k) (some (conn s cur rem none))
      ≡ read_headers fuel (c_string s) (conn s cur rem none)
unfolding use_input use_line request_line parse_line take_line
no_line_lem fuel k s t cur rem e f =
    let c = conn s cur rem none in
    ap (λ o. use_line fuel (parse_line (some k) o c)) e
    ∙ ap (λ o. use_line fuel (take_line (some k) o c)) f

receive_some_lem :
    (fuel : ℕ) (t s : Text) (cur rem : ℕ) (request : Option Request)
    → 0 < length t
    → receive_some fuel t (conn s cur rem request)
      ≡ use_input fuel (some (length t)) (receive t (conn s cur rem request))
unfolding receive_some
receive_some_lem fuel [] s cur rem request h = absurd (omega arith)
receive_some_lem fuel (b ∷ t) s cur rem request h = refl

-- The rounds after a read of `t`, behind the bytes `x`.
pub read_lem :
    (fuel : ℕ) (x t s : Text) (cur rem : ℕ) (request : Option Request)
    → take cur s ≡ x
    → 0 < length t
    → length t ≤ rem
    → cur + length t < 8192
    → (rest : Text) × (round fuel (got t) (conn s cur rem request)
        ≡ use_input fuel (some (length t)) (some (conn (x ++ (t ++ (0 ∷ rest))) cur rem request)))
unfolding round
read_lem fuel x t s cur rem request e p h l =
    let (rest, r) = receive_lem (conn s cur rem request) x t e l in
    (
      rest,
      ap (λ u. receive_some fuel u (conn s cur rem request)) (take_all rem t h)
          ∙ (receive_some_lem fuel t s cur rem request p ∙ ap (use_input fuel (some (length t))) r),
    )

pub serve_ended :
    (fuel : ℕ) (answer : ReadAnswer) (answers : List ReadAnswer) (c : Conn) (result : Served)
    → round fuel answer c ≡ ended result
    → serve fuel (answer ∷ answers) c ≡ result
unfolding serve
serve_ended fuel answer answers c result e = rw (serve, e) refl

pub serve_again :
    (fuel : ℕ) (answer : ReadAnswer) (answers : List ReadAnswer) (c c' : Conn)
    → round fuel answer c ≡ again c'
    → serve fuel (answer ∷ answers) c ≡ serve fuel answers c'
unfolding serve
serve_again fuel answer answers c c' e = rw (serve, e) refl

-- The first read brings a request line.
pub first_round :
    (fuel : ℕ) (s t : Text) (n : ℕ) (q : Request)
    → HasNoNul t
    → 0 < length t
    → length t < 8192
    → parse t ≡ done n q
    → (rest : Text) × (round fuel (got t) (conn s 0 8192 none)
        ≡ read_headers fuel (some (shifted n t)) (conn (shifted n t ++ (0 ∷ rest)) 0 8192 (some q)))
first_round fuel s t n q h p l e =
    let (rest, r) = read_lem fuel [] t s 0 8192 none refl p (omega arith) (omega arith) in
    let few = parse_le t n q e in
    (
      rest,
      r
          ∙ (line_lem fuel (length t) (t ++ (0 ∷ rest)) t 0 8192 n q (c_string_lem t rest h) e
              ∙ (ap (λ u. read_headers fuel (c_string u) (conn u 0 8192 (some q)))
                    (shift_lem n t rest few)
                  ∙ ap (λ o. read_headers fuel o (conn (shifted n t ++ (0 ∷ rest)) 0 8192 (some q)))
                      (c_string_lem (shifted n t) rest (shifted-HasNoNul n t h)))),
    )
