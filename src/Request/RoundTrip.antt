-- ===== src/Request/RoundTrip.antt =====
-- A request line in canonical form is read back by `http_request_parse` of src/http-reqline.c.
use sighttpd.Prelude.{
  ℕ, ◌+◌, ◌≡◌, ◌≢◌, refl, ◌∙◌, ap, ap₂, sym, arith, Text, some, [], ◌++◌, if◌then◌else◌, ltb, codes,
  take, drop, length, one_of, true, strcspn, strn_eq, Avoids, StartsInside, StartsOutside,
  strcspn-append, strspn-append, length-append, take-length-append, drop-length-append, drop-append,
  append_assoc, ==_ne, All,
}
use sighttpd.Request.{
  Method, options, get, head, post, put, delete, trace, connect, extension, Version, http_0_9,
  http_1_0, http_1_1, done, fail, method_of, version_of, parse_version, parse_path, parse, crlf,
}

-- The name of a method; `EXTENSION` has none.
unfoldable pub method_name : Method → Text
method_name options = codes "OPTIONS"
method_name get = codes "GET"
method_name head = codes "HEAD"
method_name post = codes "POST"
method_name put = codes "PUT"
method_name delete = codes "DELETE"
method_name trace = codes "TRACE"
method_name connect = codes "CONNECT"
method_name extension = []

unfoldable pub version_name : Version → Text
version_name http_0_9 = codes "HTTP/0.9"
version_name http_1_0 = codes "HTTP/1.0"
version_name http_1_1 = codes "HTTP/1.1"

-- The line without its CRLF.
abbrev pub reqline : Method → Text → Version → Text
reqline m path v = method_name m ++ (codes " " ++ (path ++ (codes " " ++ version_name v)))

version_of-name : (v : Version) (rest : Text) → version_of (version_name v ++ rest) ≡ some v
unfolding version_of version_name strn_eq
version_of-name http_0_9 rest = refl
version_of-name http_1_0 rest = refl
version_of-name http_1_1 rest = refl

pub version_name-Avoids : (v : Version) → Avoids crlf (version_name v)
unfolding version_name
version_name-Avoids http_0_9 = (refl, (refl, (refl, (refl, (refl, (refl, (refl, (refl, tt))))))))
version_name-Avoids http_1_0 = (refl, (refl, (refl, (refl, (refl, (refl, (refl, (refl, tt))))))))
version_name-Avoids http_1_1 = (refl, (refl, (refl, (refl, (refl, (refl, (refl, (refl, tt))))))))

pub method_of-name :
    (m : Method) (rest : Text)
    → m ≢ extension
    → method_of (length (method_name m)) (method_name m ++ rest) ≡ some m
unfolding method_of method_name strn_eq
method_of-name options rest h = refl
method_of-name get rest h = refl
method_of-name head rest h = refl
method_of-name post rest h = refl
method_of-name put rest h = refl
method_of-name delete rest h = refl
method_of-name trace rest h = refl
method_of-name connect rest h = refl
method_of-name extension rest h = absurd (h refl)

pub method_name-Avoids : (m : Method) → Avoids (codes " ") (method_name m)
unfolding method_name
method_name-Avoids options = (refl, (refl, (refl, (refl, (refl, (refl, (refl, tt)))))))
method_name-Avoids get = (refl, (refl, (refl, tt)))
method_name-Avoids head = (refl, (refl, (refl, (refl, tt))))
method_name-Avoids post = (refl, (refl, (refl, (refl, tt))))
method_name-Avoids put = (refl, (refl, (refl, tt)))
method_name-Avoids delete = (refl, (refl, (refl, (refl, (refl, (refl, tt))))))
method_name-Avoids trace = (refl, (refl, (refl, (refl, (refl, tt)))))
method_name-Avoids connect = (refl, (refl, (refl, (refl, (refl, (refl, (refl, tt)))))))
method_name-Avoids extension = tt

pub length-version_name : (v : Version) → length (version_name v) ≡ 8
unfolding version_name
length-version_name http_0_9 = refl
length-version_name http_1_0 = refl
length-version_name http_1_1 = refl

-- The part of a line behind its version: `e` is all of CR and LF up to the next line.
module _ (e rest : Text) (ends : All (λ c. one_of crlf c ≡ true) e)
    (inside : StartsInside crlf (e ++ rest)) (outside : StartsOutside crlf rest) where
  parse_version-name :
      (line : Text) (m : Method) (path : Text) (consumed : ℕ) (v : Version)
      → parse_version line m path consumed (version_name v ++ (e ++ rest)) ≡ (
          if ltb 2 (length e)
          then fail
          else done (consumed + 8 + length e) (record {
            original_reqline = take (consumed + 8) line;
            method = m;
            path = path;
            version = v;
          }))
  unfolding parse_version
  parse_version-name line m path consumed v =
      let eight = length-version_name v in
      let span : strcspn (version_name v ++ (e ++ rest)) crlf ≡ 8 =
        strcspn-append (version_name v) (e ++ rest) crlf (version_name-Avoids v) inside ∙ eight in
      let rest_at : drop 8 (version_name v ++ (e ++ rest)) ≡ e ++ rest =
        ap (λ n. drop n (version_name v ++ (e ++ rest))) (sym eight)
        ∙ drop-length-append (version_name v) (e ++ rest) in
      rw (span, version_of-name v (e ++ rest))
        (rw (span, rest_at, strspn-append e rest crlf ends outside) refl)

  -- A SP stands behind a word: what the word's span is, and what is behind the SP.
  behind_space : (a b : Text) → drop (length a + 1) (a ++ (codes " " ++ b)) ≡ b
  behind_space a b = drop-append a (codes " " ++ b) 1

  parse_path-name :
      (line : Text) (m : Method) (consumed : ℕ) (path : Text) (v : Version)
      → Avoids (codes " ") path
      → parse_path line m consumed (path ++ (codes " " ++ (version_name v ++ (e ++ rest))))
        ≡ parse_version line m path (consumed + (length path + 1)) (version_name v ++ (e ++ rest))
  unfolding parse_path
  parse_path-name line m consumed path v h =
      let b = version_name v ++ (e ++ rest) in
      rw
        (
          strcspn-append path (codes " " ++ b) (codes " ") h refl,
          ==_ne (length path) (length (path ++ (codes " " ++ b)))
              (omega (arith, length-append path (codes " " ++ b))),
          take-length-append path (codes " " ++ b),
          behind_space path b,
        )
        refl

  -- A request line of a known method, a path without SP and a version, with nothing, one or two
  -- bytes of CR and LF behind it: `http_request_parse` returns the number of its bytes, these included, and the
  -- request with the line, the method, the path and the version. With more than two such bytes, as
  -- where an empty line follows at once, it fails.
  pub parse-reqline :
      (m : Method) (path : Text) (v : Version)
      → m ≢ extension
      → Avoids (codes " ") path
      → parse (reqline m path v ++ (e ++ rest)) ≡ (
          if ltb 2 (length e)
          then fail
          else done (length (reqline m path v) + length e) (record {
            original_reqline = reqline m path v;
            method = m;
            path = path;
            version = v;
          }))
  unfolding parse
  parse-reqline m path v known h =
      let name = method_name m in
      let b = path ++ (codes " " ++ (version_name v ++ (e ++ rest))) in
      let text = name ++ (codes " " ++ b) in
      let assoc : reqline m path v ++ (e ++ rest) ≡ text = simp append_assoc in
      let span : strcspn text (codes " ") ≡ length name =
        strcspn-append name (codes " " ++ b) (codes " ") (method_name-Avoids m) refl in
      let more : length name ≢ length text = omega (arith, length-append name (codes " " ++ b)) in
      let count : length name + 1 + (length path + 1) + 8 ≡ length (reqline m path v) =
        simp length-append (omega (arith, length-version_name v)) in
      let line : take (length name + 1 + (length path + 1) + 8) text ≡ reqline m path v =
        ap₂ take count (sym assoc) ∙ take-length-append (reqline m path v) (e ++ rest) in
      ap parse assoc
      ∙ rw (span, method_of-name m (codes " " ++ b) known, parse)
          (rw (span, ==_ne (length name) (length text) more, behind_space name b)
            (parse_path-name text m (length name + 1) path v h
              ∙ parse_version-name text m path (length name + 1 + (length path + 1)) v
              ∙ rw (line, count) refl))
