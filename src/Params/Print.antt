-- ===== src/Params/Print.antt =====
-- `params_snprint` of src/params.c. The buffer is the C string that it holds, or `none` while
-- nothing is written; a write behind its end is the outcome `none`.
use sighttpd.Prelude.{
  ℕ, suc, zero, ◌+◌, ◌-◌, ◌%◌, ◌^◌, ◌≤◌, ◌<◌, min, Text, Option, none, some, [], ◌∷◌, ◌++◌, ◌≡◌,
  refl, ◌∙◌, sym, ap, ap₂, arith, if◌then◌else◌, ◌&&◌, ◌==◌, ltb, leb, codes, length, take,
  length-append, append_assoc, append-nil, take_all, take_congr,
}
use sighttpd.Params.{Param, Params}

-- `params_style`; `other` is a number that is none of the four.
pub data Style : Type 0 where
  query headers metatags paramtags other : Style

abbrev pub crlf : Text
crlf = 13 ∷ 10 ∷ []

-- The formats of `params_snprint`, filled in.
unfoldable pub line : Style → Text → Text → Text
line query key value = key ++ (codes "=" ++ (value ++ codes "&"))
line headers key value = key ++ (codes ": " ++ (value ++ crlf))
line metatags key value =
    codes "<meta name=\"" ++ (key ++ (codes "\" content=\"" ++ (value ++ codes "\"/>\n")))
line paramtags key value =
    codes "<param name=\"" ++ (key ++ (codes "\" content=\"" ++ (value ++ codes "\"/>\n")))
line other key value = []

abbrev pub Buffer : Type 0
Buffer = Option Text

abbrev pub text : Buffer → Text
text none = []
text (some t) = t

-- `snprintf(buf, n, ...)` of one text behind what the buffer holds.
unfoldable pub snprintf : Buffer → ℕ → Text → Buffer
snprintf buf n t = if n == 0 then buf else some (text buf ++ take (n - 1) t)

abbrev pub size_mod : ℕ
size_mod = 2 ^ 64

-- An `int` is the natural below 2 ^ 32 that stands for it in two's complement; `int_end` is the
-- first natural that is no positive `int`.
abbrev pub int_mod : ℕ
int_mod = 2 ^ 32

abbrev pub int_end : ℕ
int_end = 2 ^ 31

-- What snprintf(3) returns for the text `t`, as the `size_t` it is cast to: its length, or -1 where no
-- `int` holds that.
unfoldable pub counted : (t : Text) → ℕ
counted t = if ltb (length t) int_end then length t else size_mod - 1

-- The loop of `snprint_params_format`: `n` is the room left, `total` what has been counted. The test
-- `len < 0` is never true of a `size_t`.
unfoldable pub snprint_params_format : Style → Buffer → ℕ → Params → ℕ → Buffer × ℕ
unfolding snprintf counted
snprint_params_format style buf n [] total = (buf, total)
snprint_params_format style buf n (p ∷ ps) total =
    let t = line style p.key p.value in
    let len = counted t in
    snprint_params_format style (snprintf buf n t) (if leb len n then n - len else 0) ps
      ((total + len) % size_mod)

-- What is done after the loop. `buf[i] = 0` cuts the C string, and is out of bounds unless `i < n`.
-- The count is a `size_t`, so that the count -1 of an empty query is 2 ^ 64 - 1.
unfoldable pub finish_query : Buffer → ℕ → ℕ → Option (Buffer × ℕ)
finish_query buf n total =
    let len = (total + size_mod - 1) % size_mod in
    if leb len n
    then (if ltb len n then some (some (take len (text buf)), len) else none)
    else some (buf, len)

unfoldable pub finish_headers : Buffer → ℕ → ℕ → Option (Buffer × ℕ)
finish_headers buf n len =
    if ltb 0 n && ltb len ((n + size_mod - 2) % size_mod)
    then (if ltb (len + 2) n then some (some (text buf ++ crlf), len + 2) else none)
    else some (buf, (len + 2) % size_mod)

unfoldable pub finish_style : Style → Buffer → ℕ → ℕ → Option (Buffer × ℕ)
unfolding finish_query finish_headers
finish_style query buf n len = finish_query buf n len
finish_style headers buf n len = finish_headers buf n len
finish_style style buf n len = some (buf, len)

-- `return len;`: the `size_t` as an `int`.
unfoldable pub returned : Option (Buffer × ℕ) → Option (Buffer × ℕ)
returned none = none
returned (some (buf, len)) = some (buf, len % int_mod)

-- From `if (len == -1)` on.
unfoldable pub snprint_end : Style → ℕ → Buffer → ℕ → Option (Buffer × ℕ)
unfolding finish_style returned
snprint_end style n buf len =
    if len == size_mod - 1 then some (buf, int_mod - 1) else returned (finish_style style buf n len)

-- `params_snprint` on a buffer of `n` bytes to which nothing is written yet, with the `int` that it
-- returns.
unfoldable pub snprint : ℕ → Params → Style → Option (Buffer × ℕ)
unfolding snprint_end
snprint n ps other = some (none, 0)
snprint n ps style = let r = snprint_params_format style none n ps 0 in snprint_end style n r.0 r.1

-- The whole text of a set, however long.
unfoldable pub printed : Style → Params → Text
printed style [] = []
printed style (p ∷ ps) = line style p.key p.value ++ printed style ps

take_nil : (n : ℕ) → take {A = ℕ} n [] ≡ []
take_nil zero = refl
take_nil (suc n) = refl

take-append : (m : ℕ) (a b : Text) → take m (a ++ b) ≡ take m a ++ take (m - length a) b
take-append zero a b = take_congr 0 (0 - length a) b (omega arith)
take-append (suc m) [] b = take_congr (suc m) (suc m - 0) b (omega arith)
take-append (suc m) (x ∷ a) b =
    ap (λ t. x ∷ t)
      (take-append m a b
        ∙ ap (λ t. take m a ++ t)
            (take_congr (m - length a) (suc m - suc (length a)) b (omega arith)))

take-take : (m n : ℕ) (t : Text) → take m (take n t) ≡ take (min m n) t
take-take zero n t = take_congr 0 (min 0 n) t (omega arith)
take-take (suc m) zero t = take_congr 0 (min (suc m) 0) t (omega arith)
take-take (suc m) (suc n) [] = sym (take_nil (min (suc m) (suc n)))
take-take (suc m) (suc n) (x ∷ t) =
    ap (λ u. x ∷ u) (take-take m n t)
    ∙ take_congr (suc (min m n)) (min (suc m) (suc n)) (x ∷ t) (omega arith)

counted_lem : (t : Text) → length t < int_end → counted t ≡ length t
unfolding counted
counted_lem t h = ground arith

snprintf-some : (t : Text) (n : ℕ) (u : Text) → snprintf (some t) n u ≡ some (t ++ take (n - 1) u)
unfolding snprintf
snprintf-some t zero u = ap some (sym (append-nil t))
snprintf-some t (suc n) u = ground arith

-- While the whole text is shorter than 2 ^ 31 bytes, the loop counts its length, and leaves in the buffer
-- as much of it as fits beside the NUL.
snprint_params_format-some :
    (style : Style) (t : Text) (n : ℕ) (ps : Params) (total : ℕ)
    → total + length (printed style ps) < int_end
    → snprint_params_format style (some t) n ps total
      ≡ (some (t ++ take (n - 1) (printed style ps)), total + length (printed style ps))
unfolding snprint_params_format printed
snprint_params_format-some style t n [] total h =
    ap₂ (λ b c. (some b, c)) (sym (append-nil t) ∙ ap (λ u. t ++ u) (sym (take_nil (n - 1))))
      (omega arith)
snprint_params_format-some style t n (p ∷ ps) total h =
    let l = line style p.key p.value in
    let sum = length-append l (printed style ps) in
    let len : counted l ≡ length l = counted_lem l (omega (arith, sum)) in
    let kept : (total + length l) % size_mod ≡ total + length l = omega (arith, sum) in
    rw
      (
        snprintf-some t n l,
        len,
        kept,
        snprint_params_format-some style (t ++ take (n - 1) l)
            (if leb (length l) n then n - length l else 0) ps (total + length l)
            (omega (arith, sum)),
      )
      (ap₂ (λ b c. (some b, c))
        (append_assoc t (take (n - 1) l) _
          ∙ ap (λ u. t ++ u)
              (ap (λ k. take (n - 1) l ++ take k (printed style ps)) {y = n - 1 - length l}
                  (ground arith)
                ∙ sym (take-append (n - 1) l (printed style ps))))
        (omega (arith, sum)))

pub snprint_params_format_lem :
    (style : Style) (n : ℕ) (p : Param) (ps : Params)
    → 0 < n
    → length (printed style (p ∷ ps)) < int_end
    → snprint_params_format style none n (p ∷ ps) 0
      ≡ (some (take (n - 1) (printed style (p ∷ ps))), length (printed style (p ∷ ps)))
unfolding snprint_params_format snprintf
snprint_params_format_lem style n p ps h small =
    let same = snprint_params_format-some style [] n (p ∷ ps) 0 (omega arith) in
    let first : snprintf none n (line style p.key p.value)
        ≡ snprintf (some []) n (line style p.key p.value) =
      ground arith in
    let len = counted (line style p.key p.value) in
    ap
      (λ b.
        snprint_params_format style b (if leb len n then n - len else 0) ps ((0 + len) % size_mod))
      first
    ∙ same
    ∙ ap (λ k. (some (take (n - 1) (printed style (p ∷ ps))), k))
        {y = length (printed style (p ∷ ps))} (omega arith)

-- For headers of a nonempty set whose whole text an `int` can count, and a buffer of at least 3 bytes: they are
-- printed whole, each line with its CRLF and an empty line behind the last, if the text with its NUL
-- fits; else the buffer holds the part of the lines that fits. Either way the size of the whole text is
-- returned, and nothing is written behind the buffer.
pub snprint-headers :
    (n : ℕ) (p : Param) (ps : Params)
    → 3 ≤ n
    → n < size_mod
    → length (printed headers (p ∷ ps)) + 2 < int_end
    → let full = printed headers (p ∷ ps) in
      snprint n (p ∷ ps) headers
      ≡ some (
        (if ltb (length full + 2) n then some (full ++ crlf) else some (take (n - 1) full)),
        length full + 2,
      )
unfolding snprint snprint_end returned
snprint-headers n p ps lo hi small =
    rw (snprint_params_format_lem headers n p ps (omega arith) (omega arith))
      (ground (arith, take_all (n - 1) (printed headers (p ∷ ps))))

finish_query_lem :
    (t : Text) (n : ℕ)
    → 0 < n
    → 0 < length t
    → length t ≤ int_end
    → snprint_end query n (some (take (n - 1) t)) (length t) ≡ (
        if length t == n + 1
        then none
        else some (some (take (min (length t - 1) (n - 1)) t), length t - 1))
unfolding snprint_end returned finish_query
finish_query_lem t n lo pos hi =
    let e : (length t + size_mod - 1) % size_mod ≡ length t - 1 = omega arith in
    let f : (length t - 1) % int_mod ≡ length t - 1 = omega arith in
    rw (e) (
      ground (
        arith,
        f,
        take-take (length t - 1) (n - 1) t,
        take_congr (min (length t - 1) (n - 1)) (n - 1) t,
      ))

0-lt-length-query : (p : Param) (ps : Params) → 0 < length (printed query (p ∷ ps))
unfolding printed line
0-lt-length-query p ps = simp length-append (omega arith)

-- A nonempty query string that an `int` can count is printed into a buffer of at least one byte without the last
-- `&`, cut to the buffer if it is longer, and its size is returned; with one exception, a text that is
-- one byte longer than the buffer: then a NUL is written behind the buffer.
pub snprint-query :
    (n : ℕ) (p : Param) (ps : Params)
    → 0 < n
    → length (printed query (p ∷ ps)) < int_end
    → let full = printed query (p ∷ ps) in
      snprint n (p ∷ ps) query ≡ (
        if length full == n + 1
        then none
        else some (some (take (min (length full - 1) (n - 1)) full), length full - 1))
unfolding snprint
snprint-query n p ps lo hi =
    rw (snprint_params_format_lem query n p ps (omega arith) hi)
      (finish_query_lem (printed query (p ∷ ps)) n lo (0-lt-length-query p ps) (omega arith))
