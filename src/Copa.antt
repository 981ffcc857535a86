-- ===== src/Copa.antt =====
-- src/cfg-parse.c: the parser of configuration files. Bytes are naturals; a `char` that is -1, which
-- stands for the end of the file, is the byte 255. Each loop takes fuel, and `none` is a loop that
-- the fuel does not end. A client's callbacks are called with what is found, in its order.
pub mod Parse
pub mod Next
pub mod Reads
pub mod Grammar
pub mod Blocks
pub mod Lines
pub mod Line
pub mod RoundTrip
pub mod Ends
pub mod Readers
pub mod Progress
pub mod Total
pub mod Decide
mod Tests
use sighttpd.Prelude.{
  ℕ, suc, zero, ◌+◌, ◌-◌, ◌*◌, ◌%◌, Text, Bool, true, false, not, Option, none, some, List, [], ◌∷◌,
  ◌++◌, ◌||◌, ◌&&◌, ◌==◌, ltb, leb, if◌then◌else◌, ◌>>=◌, length, drop, get_or,
}

-- `CopaParser`, less the callbacks and `nread`, which nothing reads. `input` is what the calls of
-- read(2) answer from now on; after these it answers 0. The answer -1 is the empty text.
pub record CopaParser : Type 0 where
  pub read_buffer : Text
  pub input : List Text
  pub active : Bool
  pub pushback : ℕ
  pub numchar : ℕ
  pub escape : Bool
  pub octal : ℕ
  pub hex : ℕ
  pub offset : ℕ

-- `BUFFER_SIZE`
abbrev pub buffer_size : ℕ
buffer_size = 8

abbrev pub eof : ℕ
eof = 255

abbrev pub backslash : ℕ
backslash = b'\\'

-- The character classes, of which the source makes sets as bitmasks.
pub data CharClass : Type 0 where
  newline whitespace comment lbracket rbracket dquote squote slash : CharClass

unfoldable pub in_class : ℕ → CharClass → Bool
in_class c newline = (c == 10) || (c == 13)
in_class c whitespace = (c == 32) || (leb 9 c && leb c 13)
in_class c comment = c == b'#'
in_class c lbracket = c == b'<'
in_class c rbracket = c == b'>'
in_class c dquote = c == b'"'
in_class c squote = c == 39
in_class c slash = c == b'/'

-- `copa_cin`
abbrev pub copa_cin : ℕ → List CharClass → Bool
copa_cin c [] = false
copa_cin c (k ∷ ks) = in_class c k || copa_cin c ks

-- What `read` puts into the buffer: bytes behind a short answer stay.
abbrev pub overwrite : Text → Text → Text
overwrite answer buffer = answer ++ drop (length answer) buffer

-- `copa_refill`, by what read(2) answers; `false` is -1.
unfoldable pub refill_by : List Text → CopaParser → Bool × CopaParser
refill_by [] p = (false, record p { active = false })
refill_by ([] ∷ input) p = (false, record p { input = input; active = false })
refill_by ((b ∷ bs) ∷ input) p =
    (true, record p { read_buffer = overwrite (b ∷ bs) p.read_buffer; input = input; offset = 0 })

abbrev pub copa_refill : CopaParser → Bool × CopaParser
copa_refill p = refill_by p.input p

-- `copa_octal` and `copa_hex`; `none` is -1.
unfoldable pub copa_octal : ℕ → Option ℕ
copa_octal c = if leb b'0' c && leb c b'7' then some (c - b'0') else none

unfoldable pub copa_hex : ℕ → Option ℕ
copa_hex c =
    if leb b'0' c && leb c b'9'
    then some (c - b'0')
    else if leb b'a' c && leb c b'f'
    then some (c - b'a' + 10)
    else if leb b'A' c && leb c b'F'
    then some (c - b'A' + 10)
    else none

-- The end of a number at a character that is no digit of it: the number is given, the character kept.
unfoldable pub end_number : CopaParser → ℕ → ℕ × CopaParser
end_number p c =
    (p.numchar, if c == backslash then record p { escape = true } else record p { pushback = c })

-- A digit; the number is given at the last digit that it may have. `char` arithmetic is modulo 256.
unfoldable pub octal_digit : CopaParser → ℕ → Option ℕ → ℕ × CopaParser
octal_digit p c none = end_number (record p { octal = 0 }) c
octal_digit p c (some num) =
    let n = (p.numchar * 8 + num) % 256 in (if p.octal == 0 then n else 0, record p { numchar = n })

unfoldable pub hex_digit : CopaParser → ℕ → Option ℕ → ℕ × CopaParser
hex_digit p c none = end_number (record p { hex = 0 }) c
hex_digit p c (some num) =
    let n = (p.numchar * 16 + num) % 256 in (if p.hex == 0 then n else 0, record p { numchar = n })

-- An escape that is neither a letter's nor a continuation.
unfoldable pub escape_octal : CopaParser → ℕ → Option ℕ → ℕ × CopaParser
escape_octal p c none = (c, p)
escape_octal p c (some num) = (0, record p { octal = 3; numchar = num })

-- The `switch` on the character behind a backslash.
unfoldable pub unescape : CopaParser → ℕ → ℕ × CopaParser
unescape p c =
    if c == b'a'
    then (7, p)
    else if c == b'b'
    then (8, p)
    else if c == b'f'
    then (12, p)
    else if c == b'n'
    then (10, p)
    else if c == b'r'
    then (13, p)
    else if c == b't'
    then (9, p)
    else if c == b'v'
    then (11, p)
    else if (c == 39) || ((c == backslash) || (c == b'?'))
    then (c, p)
    else if (c == 10) || (c == 13)
    then (0, p)
    else if c == b'x'
    then (0, record p { hex = 2; numchar = 0 })
    else escape_octal p c (copa_octal c)

-- What a character of the buffer comes to: a character, or NUL where the loop goes on.
unfoldable pub decode : CopaParser → ℕ → ℕ × CopaParser
decode p c =
    if ltb 0 p.octal
    then octal_digit (record p { octal = p.octal - 1 }) c (copa_octal c)
    else if ltb 0 p.hex
    then hex_digit (record p { hex = p.hex - 1 }) c (copa_hex c)
    else if p.escape
    then unescape (record p { escape = false }) c
    else if c == backslash
    then (0, record p { escape = true })
    else (c, p)

-- `if (parser->offset >= BUFFER_SIZE)` and the refill; `false` is its return of -1.
unfoldable pub ready : CopaParser → Bool × CopaParser
ready p = if ltb p.offset buffer_size then (true, p) else copa_refill p

-- `c = parser->read_buffer[parser->offset++]` and what comes of it.
unfoldable pub step : CopaParser → ℕ × CopaParser
step p = decode (record p { offset = p.offset + 1 }) (get_or p.read_buffer p.offset 0)

-- The loop of `copa_next`.
unfoldable pub next_loop : ℕ → CopaParser → Option (ℕ × CopaParser)
next_loop zero p = none
next_loop (suc fuel) p =
    let q = (ready p).1 in
    let more = next_loop fuel (step q).1 in
    if not (ready p).0 then some (eof, q) else if (step q).0 == 0 then more else some (step q)
