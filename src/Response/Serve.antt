-- ===== src/Response/Serve.antt =====
-- The loop of `http_response` in src/http-response.c, over what read(2) answers. The buffer `s` is a text
-- of 8192 bytes; what is in it at first is arbitrary.
mod Tests
use sighttpd.Prelude.{
  ℕ, ◌+◌, ◌-◌, Text, Bool, true, false, Option, none, some, List, [], ◌∷◌, ◌++◌, ◌==◌, ltb, leb,
  if◌then◌else◌, ◌>>=◌, length, take, drop,
}
use sighttpd.Params.{Params}
use sighttpd.Params.Headers.{Parsed, overflow, parsed, parse_headers}
use sighttpd.Request.{Request, Outcome, overread, fail, done, parse}
use sighttpd.Resource.{Resource}
use sighttpd.Ringbuffer.Transfer.{ReadAnswer, failed, got}
use sighttpd.Response.{respond}

-- The variables of the loop; `cur` is an offset into `s`, and `request` is `none` while `init` is 0.
pub record Conn : Type 0 where
  pub s : Text
  pub cur : ℕ
  pub rem : ℕ
  pub request : Option Request

-- How the loop ends: `stray` where it reads or writes outside of `s` or of a block, `running` where the
-- fuel does not end `params_new_parse`, `closed` where nothing was answered when the client
-- closed, `waiting` where the answers of read(2) are used up. `unset` is a call of `respond` with a
-- request that was never set.
pub data Served : Type 0 where
  stray running closed waiting : Served
  unset : Params → Served
  served : Request → Params → Served

pub data Round : Type 0 where
  ended : Served → Round
  again : Conn → Round

-- The bytes before the first NUL; `none` where the text has none.
unfoldable pub c_string : Text → Option Text
c_string [] = none
c_string (c ∷ s) = let rest = c_string s in if c == 0 then some [] else do t ← rest; some (c ∷ t)

unfoldable pub put_at : ℕ → Text → Text → Text
put_at offset t s = take offset s ++ (t ++ drop (offset + length t) s)

-- What is read, with the NUL that is put behind it where `nread < 8192`; `none` where that is behind `s`.
unfoldable pub receive : Text → Conn → Option Conn
receive t c =
    if ltb (length t) 8192
    then (if leb 8192 (c.cur + length t)
        then none
        else some (record c { s = put_at c.cur (t ++ 0 ∷ []) c.s }))
    else some (record c { s = put_at c.cur t c.s })

-- `memmove (s, &s[n], nread-n)`
unfoldable pub shift : (n nread : ℕ) → Text → Text
shift n nread s = take (nread - n) (drop n s) ++ drop (nread - n) s

-- `nread` is `none` where it is -1: as a length it is then too large.
unfoldable pub take_line : (nread : Option ℕ) → Outcome → Conn → Option Conn
take_line nread overread c = none
take_line nread fail c = some c
take_line none (done n request) c = none
take_line (some nread) (done n request) c =
    some (record c { s = shift n nread c.s; request = some request })

-- `n = http_request_parse (cur, rem, &request)`, of the text at `cur`.
unfoldable pub parse_line : (nread : Option ℕ) → Option Text → Conn → Option Conn
parse_line nread none c = none
parse_line nread (some line) c = take_line nread (parse line) c

-- `if (!init && ... > 0) { ... }`
unfoldable pub request_line : (nread : Option ℕ) → Option Request → Conn → Option Conn
request_line nread (some request) c = some c
request_line nread none c = parse_line nread (c_string (drop c.cur c.s)) c

-- `respond (schild, &request, request_headers)`
unfoldable pub answered : Option Request → Params → Served
answered none request_headers = unset request_headers
answered (some request) request_headers = served request request_headers

-- `n = strlen (cur); cur += n; rem -= n;`
unfoldable pub advance : Option Text → Conn → Round
advance none c = ended stray
advance (some t) c = again (record c { cur = c.cur + length t; rem = c.rem - length t })

unfoldable pub use_headers : Parsed → Conn → Round
use_headers Parsed.running c = ended running
use_headers overflow c = ended stray
use_headers (parsed []) c = advance (c_string (drop c.cur c.s)) c
use_headers (parsed (p ∷ ps)) c = ended (answered c.request (p ∷ ps))

unfoldable pub read_headers : (fuel : ℕ) → Option Text → Conn → Round
read_headers fuel none c = ended stray
read_headers fuel (some text) c = use_headers (parse_headers fuel text) c

unfoldable pub use_line : (fuel : ℕ) → Option Conn → Round
use_line fuel none = ended stray
use_line fuel (some c) = read_headers fuel (c_string c.s) c

-- The body of the loop behind the NUL.
unfoldable pub use_input : (fuel : ℕ) (nread : Option ℕ) → Option Conn → Round
use_input fuel nread none = ended stray
use_input fuel nread (some c) = use_line fuel (request_line nread c.request c)

-- One round of the loop, where `n` is not -1; read(2) gives at most the `rem` bytes asked for.
unfoldable pub receive_some : (fuel : ℕ) → Text → Conn → Round
receive_some fuel [] c = ended closed
receive_some fuel (b ∷ bs) c = use_input fuel (some (length (b ∷ bs))) (receive (b ∷ bs) c)

unfoldable pub round : (fuel : ℕ) → ReadAnswer → Conn → Round
round fuel failed c = use_input fuel none (some c)
round fuel (got t) c = receive_some fuel (take c.rem t) c

unfoldable pub serve : (fuel : ℕ) → List ReadAnswer → Conn → Served
serve fuel [] c = waiting
serve fuel (answer ∷ answers) c = elim (round fuel answer c) [
  | ended result ↦ result
  | again c' ↦ serve fuel answers c'
]

-- The loop where the `n` that was never set is -1: each round says so and goes on.
unfoldable pub drain : List ReadAnswer → Served
drain [] = waiting
drain (failed ∷ answers) = drain answers
drain (got [] ∷ answers) = closed
drain (got (b ∷ bs) ∷ answers) = drain answers

-- `http_response` up to the call of `respond`, from what `s` holds at first and whether `n` is -1.
unfoldable pub http_response : (fuel : ℕ) (s : Text) (n_unset : Bool) → List ReadAnswer → Served
http_response fuel s n_unset answers =
    if n_unset
    then drain answers
    else serve fuel answers (record { s = s; cur = 0; rem = 8192; request = none })

-- What the client is sent, by how the loop ends, where that is `respond` of a request.
unfoldable pub sent : (date version : Text) → List Resource → Served → Text
sent date version resources (served request request_headers) =
    respond date version resources request request_headers
sent date version resources _ = []
