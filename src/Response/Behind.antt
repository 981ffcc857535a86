-- ===== src/Response/Behind.antt =====
-- What is behind the request line and the headers in the buffer of src/http-response.c.
use sighttpd.Prelude.{
  ℕ, suc, zero, ◌+◌, ◌-◌, ◌≤◌, ◌<◌, ◌≡◌, refl, ◌∙◌, sym, ap, Text, false, some, [], ◌∷◌, ◌++◌,
  arith, codes, take, drop, length, leb, ◌==◌, All, All-append, append_assoc, length-append,
  length-drop, take_all, lt→ltb, inl, inr, strcspn, strcspn_le, Option-cases,
}
use sighttpd.Params.{Param, Params}
use sighttpd.Params.Print.{crlf}
use sighttpd.Params.Parse.{parse_delim}
use sighttpd.Params.Headers.{
  Canonical, null, canonical, Parsed, parsed, from_loop, headers_canonicalize, parse_headers,
}
use sighttpd.Request.{Method, Request, done, method_of, parse, parse_path, parse_version}
use sighttpd.Response.Serve.{Conn, c_string, put_at, receive, shift}
use sighttpd.Response.Spans.{take-longer, drop-longer, strspn_le}
use sighttpd.Response.Tail.{canonicalize-longer}

-- A text of bytes other than NUL.
abbrev pub HasNoNul : Text → Type 0
HasNoNul = All (λ c. (c == 0) ≡ false)

lt→leb : (a b : ℕ) → a < b → leb b a ≡ false
lt→leb a b h = ground arith

pub c_string_lem : (t rest : Text) → HasNoNul t → c_string (t ++ (0 ∷ rest)) ≡ some t
unfolding c_string
c_string_lem [] rest h = refl
c_string_lem (x ∷ t) rest (e, h) = rw (e, c_string_lem t rest h) refl

drop-HasNoNul : (n : ℕ) (t : Text) → HasNoNul t → HasNoNul (drop n t)
drop-HasNoNul zero t h = h
drop-HasNoNul (suc n) [] h = tt
drop-HasNoNul (suc n) (x ∷ t) (e, h) = drop-HasNoNul n t h

-- What a request line takes is part of the text.
parse_version_le :
    (reqline : Text) (m : Method) (path : Text) (k : ℕ) (s : Text) (n : ℕ) (q : Request)
    → parse_version reqline m path k s ≡ done n q
    → n ≤ k + length s
unfolding parse_version
parse_version_le reqline m path k s n q e =
    let span = strcspn s crlf in
    ground (arith, e, strcspn_le s crlf, strspn_le (drop span s) crlf, length-drop span s)

parse_path_le :
    (reqline : Text) (m : Method) (k : ℕ) (s : Text) (n : ℕ) (q : Request)
    → parse_path reqline m k s ≡ done n q
    → n ≤ k + length s
unfolding parse_path
parse_path_le reqline m k s n q e =
    let span = strcspn s (codes " ") in
    ground (
      arith,
      e,
      strcspn_le s (codes " "),
      length-drop (span + 1) s,
      parse_version_le reqline m (take span s) (k + (span + 1)) (drop (span + 1) s) n q,
    )

pub parse_le : (s : Text) (n : ℕ) (q : Request) → parse s ≡ done n q → n ≤ length s
unfolding parse
parse_le s n q e =
    let span = strcspn s (codes " ") in
    elim (Option-cases (method_of span s)) [
      | inl f ↦ absurd (ground (arith, rw (f, parse) at e))
      | inr (m, f) ↦ ground (
        arith,
        rw (f, parse) at e,
        strcspn_le s (codes " "),
        length-drop (span + 1) s,
        parse_path_le s m (span + 1) (drop (span + 1) s) n q,
      )
    ]

-- What `c` gets of a read that leaves room for a NUL, behind the text `x` that is before `cur`.
pub receive_lem :
    (c : Conn) (x t : Text)
    → take c.cur c.s ≡ x
    → c.cur + length t < 8192
    → (rest : Text) × (receive t c ≡ some (record c { s = x ++ (t ++ (0 ∷ rest)) }))
unfolding receive put_at
receive_lem c x t h l =
    let rest = drop (c.cur + length (t ++ 0 ∷ [])) c.s in
    (
      rest,
      rw (lt→ltb (length t) 8192 (omega arith), lt→leb (c.cur + length t) 8192 l, h)
          (ap (λ u. some (record c { s = x ++ u })) (append_assoc t (0 ∷ []) rest)),
    )

-- The buffer behind `memmove`: the bytes behind the request line, and then once more the last bytes of
-- what was read.
abbrev pub shifted : ℕ → Text → Text
shifted n t = drop n t ++ drop (length t - n) t

pub shift_lem :
    (n : ℕ) (t rest : Text)
    → n ≤ length t
    → shift n (length t) (t ++ (0 ∷ rest)) ≡ shifted n t ++ (0 ∷ rest)
unfolding shift
shift_lem n t rest h =
    rw
      (
        drop-longer n t (0 ∷ rest) h,
        drop-longer (length t - n) t (0 ∷ rest) (omega arith),
        take-longer (length t - n) (drop n t) (0 ∷ rest) (omega (arith, length-drop n t)),
        take_all (length t - n) (drop n t) (omega (arith, length-drop n t)),
      )
      (sym (append_assoc (drop n t) (drop (length t - n) t) (0 ∷ rest)))

pub shifted-HasNoNul : (n : ℕ) (t : Text) → HasNoNul t → HasNoNul (shifted n t)
shifted-HasNoNul n t h =
    All-append (λ c. (c == 0) ≡ false) (drop n t) (drop (length t - n) t) (drop-HasNoNul n t h)
      (drop-HasNoNul (length t - n) t h)

pub length-shifted : (n : ℕ) (t : Text) → n ≤ length t → length (shifted n t) ≡ length t
length-shifted n t h = omega (
  arith,
  length-append (drop n t) (drop (length t - n) t),
  length-drop n t,
  length-drop (length t - n) t,
)

-- `params_new_parse_headers` behind `headers_canonicalize`.
from_canonical : ℕ → Canonical → Parsed
from_canonical fuel Canonical.running = Parsed.running
from_canonical fuel Canonical.overflow = Parsed.overflow
from_canonical fuel null = parsed []
from_canonical fuel (canonical cheaders) =
    from_loop (parse_delim fuel (codes ": ") crlf cheaders [])

from_canonical-some :
    (fuel : ℕ) (c : Canonical) (p : Param) (ps : Params)
    → from_canonical fuel c ≡ parsed (p ∷ ps)
    → (r : Text) × (c ≡ canonical r)
unfolding from_canonical
from_canonical-some fuel Canonical.running p ps e = absurd (ground (arith, e))
from_canonical-some fuel Canonical.overflow p ps e = absurd (ground (arith, e))
from_canonical-some fuel null p ps e = absurd (ground (arith, e))
from_canonical-some fuel (canonical r) p ps e = (r, refl)

parse_headers-from_canonical :
    (fuel : ℕ) (a : Text) → parse_headers fuel a ≡ from_canonical fuel (headers_canonicalize fuel a)
unfolding parse_headers from_canonical
parse_headers-from_canonical fuel a = go (headers_canonicalize fuel a)
  where
    go :
        (c : Canonical)
        → (elim c [
          | Canonical.running ↦ Parsed.running
          | Canonical.overflow ↦ Parsed.overflow
          | null ↦ parsed []
          | canonical cheaders ↦ from_loop (parse_delim fuel (codes ": ") crlf cheaders [])
        ])
          ≡ from_canonical fuel c
    go Canonical.running = refl
    go Canonical.overflow = refl
    go null = refl
    go (canonical cheaders) = refl

-- The fields of headers that have their empty line are those of the text with more behind it.
pub parse_headers-longer :
    (fuel : ℕ) (a junk : Text) (p : Param) (ps : Params)
    → parse_headers fuel a ≡ parsed (p ∷ ps)
    → parse_headers fuel (a ++ junk) ≡ parsed (p ∷ ps)
unfolding headers_canonicalize
parse_headers-longer fuel a junk p ps e =
    let e' = sym (parse_headers-from_canonical fuel a) ∙ e in
    let (r, f) = from_canonical-some fuel (headers_canonicalize fuel a) p ps e' in
    let g : headers_canonicalize fuel (a ++ junk) ≡ canonical r =
      canonicalize-longer fuel junk (length a + 1) (length (a ++ junk) + 1) a [] r
        (omega (arith, length-append a junk)) f in
    parse_headers-from_canonical fuel (a ++ junk) ∙ (ap (from_canonical fuel) (g ∙ sym f) ∙ e')
