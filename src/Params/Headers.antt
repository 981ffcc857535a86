-- ===== src/Params/Headers.antt =====
-- `headers_canonicalize` and `params_new_parse` of src/params.c. The canonical text goes to a block
-- of `strlen(headers) + 1` bytes; text that does not fit it is the outcome `overflow`.
pub mod Canon
pub mod Lines
pub mod Fits
use sighttpd.Prelude.{
  ℕ, suc, zero, ◌+◌, ◌-◌, Text, Option, none, some, List, [], ◌∷◌, ◌++◌, if◌then◌else◌, ◌||◌, ◌==◌,
  ltb, leb, Bool, codes, take, drop, length, strcspn, strspn,
}
use sighttpd.Params.{Params}
use sighttpd.Params.Print.{Style, query, headers, metatags, paramtags, other, crlf}
use sighttpd.Params.Parse.{parse_delim, parse_query}

abbrev pub spht : Text
spht = 32 ∷ 9 ∷ []

abbrev pub lws : Text
lws = 32 ∷ 9 ∷ 13 ∷ 10 ∷ []

-- How often a byte occurs: the loop that sets `nr_cr` and `nr_lf`.
unfoldable pub count : ℕ → Text → ℕ
count c [] = 0
count c (d ∷ s) = (if d == c then 1 else 0) + count c s

-- `running` is a loop that the fuel does not end; `null` is the result NULL.
pub data Canonical : Type 0 where
  running overflow null : Canonical
  canonical : Text → Canonical

-- The result for the text `n`, written to a block of `size` bytes with a NUL behind it. Bytes are
-- only ever added to it, so that it has left the block at some point if it is too long at the end.
unfoldable pub finish : ℕ → Text → Canonical → Canonical
finish size n result = if ltb (length n) size then result else Canonical.overflow

-- The text at `c` behind non-whitespace, and behind SP and HT.
abbrev pub skip_word : Text → Text
skip_word c = drop (strcspn c lws) c

abbrev pub skip_spht : Text → Text
skip_spht c = drop (strspn c spht) c

-- What one round adds for a word and the SP and HT behind it.
unfoldable pub word_out : Text → Text
word_out c = take (strcspn c lws) c ++ (if ltb 0 (strspn (skip_word c) spht) then codes " " else [])

-- Whether a block of CR and LF ends the headers.
unfoldable pub ends_headers : Text → Bool
unfolding count
ends_headers block = leb 2 (count 13 block) || leb 2 (count 10 block)

-- The loop of `headers_canonicalize`: `c` is the text to read, `n` what has been written. `eol` is
-- the text behind the word, `next` that behind the block of CR and LF.
unfoldable pub canonicalize : ℕ → ℕ → Text → Text → Canonical
unfolding finish word_out ends_headers
canonicalize zero size c n = Canonical.running
canonicalize (suc fuel) size [] n = finish size n null
canonicalize (suc fuel) size (x ∷ s) n =
    let c = x ∷ s in
    let n' = n ++ word_out c in
    let eol = skip_spht (skip_word c) in
    let span = strspn eol crlf in
    let next = drop span eol in
    let no_block = canonicalize fuel size eol n' in
    let folded = canonicalize fuel size (skip_spht next) (n' ++ codes " ") in
    let broken = canonicalize fuel size next (n' ++ crlf) in
    if span == 0
    then no_block
    else if ends_headers (take span eol)
    then finish size n' (canonical n')
    else if ltb 0 (strspn next spht)
    then folded
    else broken

unfoldable pub headers_canonicalize : ℕ → Text → Canonical
headers_canonicalize fuel input = canonicalize fuel (length input + 1) input []

-- What becomes of a call of `params_new_parse`; NULL is the empty set.
pub data Parsed : Type 0 where
  running overflow : Parsed
  parsed : Params → Parsed

abbrev pub from_loop : Option Params → Parsed
from_loop none = Parsed.running
from_loop (some ps) = parsed ps

-- `params_new_parse_headers`; it does not read its `len`.
unfoldable pub parse_headers : ℕ → Text → Parsed
parse_headers fuel input = elim (headers_canonicalize fuel input) [
  | Canonical.running ↦ Parsed.running
  | Canonical.overflow ↦ Parsed.overflow
  | null ↦ parsed []
  | canonical cheaders ↦ from_loop (parse_delim fuel (codes ": ") crlf cheaders [])
]

-- `params_new_parse`
unfoldable pub parse : ℕ → Text → ℕ → Style → Parsed
unfolding parse_headers
parse fuel input len query = from_loop (parse_query fuel input len)
parse fuel input len headers = parse_headers fuel input
parse fuel input len style = parsed []
