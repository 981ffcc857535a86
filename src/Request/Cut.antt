-- ===== src/Request/Cut.antt =====
-- What `http_request_parse` of src/http-reqline.c makes of the two parts of a request line that is cut in its
-- version.
use sighttpd.Prelude.{
  ℕ, zero, suc, ◌+◌, ◌<◌, ◌≡◌, ◌≢◌, refl, ◌∙◌, ap, sym, arith, Bool, false, ◌||◌, Text, none, [],
  ◌∷◌, ◌++◌, codes, take, drop, length, strcspn, strn_eq, Avoids, strcspn-append, length-append,
  length-take, take-length-append, drop-append, append-nil, ==_ne,
}
use sighttpd.Request.{
  Method, Version, extension, http_0_9, http_1_0, http_1_1, fail, method_of, parse_version,
  parse_path, parse, crlf,
}
use sighttpd.Request.RoundTrip.{
  method_name, version_name, method_name-Avoids, method_of-name, version_name-Avoids,
}

-- The part of a line before the cut, behind `k` bytes of the version.
abbrev pub line_start : Method → Text → Version → ℕ → Text
line_start m path v k =
    method_name m ++ (codes " " ++ (path ++ (codes " " ++ take k (version_name v))))

take-Avoids : (k : ℕ) (s set : Text) → Avoids set s → Avoids set (take k s)
take-Avoids zero s set h = tt
take-Avoids (suc k) [] set h = tt
take-Avoids (suc k) (c ∷ s) set (a, h) = (a, take-Avoids k s set h)

-- All of a text is in front of the first byte of a set that it avoids.
strcspn-Avoids : (s set : Text) → Avoids set s → strcspn s set ≡ length s
strcspn-Avoids s set h = ap (λ t. strcspn t set) (sym (append-nil s)) ∙ strcspn-append s [] set h tt

parse_version-take :
    (line : Text) (m : Method) (path : Text) (consumed : ℕ) (v : Version) (k : ℕ)
    → k < 8
    → parse_version line m path consumed (take k (version_name v)) ≡ fail
unfolding parse_version
parse_version-take line m path consumed v k h =
    let w = take k (version_name v) in
    let span =
      strcspn-Avoids w crlf (take-Avoids k (version_name v) crlf (version_name-Avoids v)) in
    rw (span, ==_ne (length w) 8 (omega (arith, length-take k (version_name v)))) refl

parse_path-take :
    (line : Text) (m : Method) (consumed : ℕ) (path : Text) (v : Version) (k : ℕ)
    → Avoids (codes " ") path
    → k < 8
    → parse_path line m consumed (path ++ (codes " " ++ take k (version_name v))) ≡ fail
unfolding parse_path
parse_path-take line m consumed path v k h few =
    let b = take k (version_name v) in
    rw
      (
        strcspn-append path (codes " " ++ b) (codes " ") h refl,
        ==_ne (length path) (length (path ++ (codes " " ++ b)))
            (omega (arith, length-append path (codes " " ++ b))),
        take-length-append path (codes " " ++ b),
        drop-append path (codes " " ++ b) 1,
      )
      (parse_version-take line m path _ v k few)

-- The first part is no request line.
pub parse-line_start :
    (m : Method) (path : Text) (v : Version) (k : ℕ)
    → m ≢ extension
    → Avoids (codes " ") path
    → k < 8
    → parse (line_start m path v k) ≡ fail
unfolding parse
parse-line_start m path v k known h few =
    let name = method_name m in
    let b = path ++ (codes " " ++ take k (version_name v)) in
    let span : strcspn (line_start m path v k) (codes " ") ≡ length name =
      strcspn-append name (codes " " ++ b) (codes " ") (method_name-Avoids m) refl in
    let more : length name ≢ length (line_start m path v k) =
      omega (arith, length-append name (codes " " ++ b)) in
    rw (span, method_of-name m (codes " " ++ b) known, parse)
      (rw
        (
          span,
          ==_ne (length name) (length (line_start m path v k)) more,
          drop-append name (codes " " ++ b) 1,
        )
        (parse_path-take (line_start m path v k) m (length name + 1) path v k h few))

-- Whether a text begins with a method.
abbrev starts_method : Text → Bool
starts_method s =
    strn_eq s (codes "GET") 3
    || strn_eq s (codes "PUT") 3
    || strn_eq s (codes "HEAD") 4
    || strn_eq s (codes "POST") 4
    || strn_eq s (codes "TRACE") 5
    || strn_eq s (codes "DELETE") 6
    || strn_eq s (codes "OPTIONS") 7
    || strn_eq s (codes "CONNECT") 7

no_method : (n : ℕ) (s : Text) → starts_method s ≡ false → method_of n s ≡ none
unfolding method_of
no_method n s e = ground (arith, e)

-- No part of a version does.
version_tail-no_method :
    (v : Version) (k n : ℕ) (rest : Text)
    → k < 8
    → method_of n (drop k (version_name v) ++ rest) ≡ none
unfolding version_name strn_eq
version_tail-no_method http_0_9 zero n rest h = no_method n _ refl
version_tail-no_method http_1_0 zero n rest h = no_method n _ refl
version_tail-no_method http_1_1 zero n rest h = no_method n _ refl
version_tail-no_method http_0_9 (suc zero) n rest h = no_method n _ refl
version_tail-no_method http_1_0 (suc zero) n rest h = no_method n _ refl
version_tail-no_method http_1_1 (suc zero) n rest h = no_method n _ refl
version_tail-no_method http_0_9 (suc (suc zero)) n rest h = no_method n _ refl
version_tail-no_method http_1_0 (suc (suc zero)) n rest h = no_method n _ refl
version_tail-no_method http_1_1 (suc (suc zero)) n rest h = no_method n _ refl
version_tail-no_method http_0_9 (suc (suc (suc zero))) n rest h = no_method n _ refl
version_tail-no_method http_1_0 (suc (suc (suc zero))) n rest h = no_method n _ refl
version_tail-no_method http_1_1 (suc (suc (suc zero))) n rest h = no_method n _ refl
version_tail-no_method http_0_9 (suc (suc (suc (suc zero)))) n rest h = no_method n _ refl
version_tail-no_method http_1_0 (suc (suc (suc (suc zero)))) n rest h = no_method n _ refl
version_tail-no_method http_1_1 (suc (suc (suc (suc zero)))) n rest h = no_method n _ refl
version_tail-no_method http_0_9 (suc (suc (suc (suc (suc zero))))) n rest h = no_method n _ refl
version_tail-no_method http_1_0 (suc (suc (suc (suc (suc zero))))) n rest h = no_method n _ refl
version_tail-no_method http_1_1 (suc (suc (suc (suc (suc zero))))) n rest h = no_method n _ refl
version_tail-no_method http_0_9 (suc (suc (suc (suc (suc (suc zero)))))) n rest h =
    no_method n _ refl
version_tail-no_method http_1_0 (suc (suc (suc (suc (suc (suc zero)))))) n rest h =
    no_method n _ refl
version_tail-no_method http_1_1 (suc (suc (suc (suc (suc (suc zero)))))) n rest h =
    no_method n _ refl
version_tail-no_method http_0_9 (suc (suc (suc (suc (suc (suc (suc zero))))))) n rest h =
    no_method n _ refl
version_tail-no_method http_1_0 (suc (suc (suc (suc (suc (suc (suc zero))))))) n rest h =
    no_method n _ refl
version_tail-no_method http_1_1 (suc (suc (suc (suc (suc (suc (suc zero))))))) n rest h =
    no_method n _ refl
version_tail-no_method v (suc (suc (suc (suc (suc (suc (suc (suc n₀)))))))) n rest h =
    absurd (omega arith)

-- Nor is the second part one, whatever follows it.
pub parse-line_rest :
    (v : Version) (k : ℕ) (rest : Text) → k < 8 → parse (drop k (version_name v) ++ rest) ≡ fail
unfolding parse
parse-line_rest v k rest few =
    let s = drop k (version_name v) ++ rest in
    rw (version_tail-no_method v k (strcspn s (codes " ")) rest few, parse) refl
