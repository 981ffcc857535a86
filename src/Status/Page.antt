-- ===== src/Status/Page.antt =====
-- The pages of src/http-status.c against their headers.
use sighttpd.Prelude.{
  ℕ, ◌+◌, ◌*◌, Text, some, none, [], ◌++◌, ◌≡◌, refl, ◌∙◌, ap, sym, arith, codes, length, take,
  drop, digits, leb, leb→le, true, ◌-◌, print_int, decimal, value, length-append, length-print_int,
  value-print_int, take_all, length-take, strcase_eq, lower, tolower, text_eq, false,
  strcase_eq_refl,
}
use sighttpd.Params.{Params, get, append}
use sighttpd.Params.Lookup.{combined, get-append}
use sighttpd.Status.{
  Status, number, http_status_line, http_status_tmpl, print_length, http_status_append_headers,
  http_status_stream_body, crlf, continue,
}

reason : Status → Text
unfolding http_status_line
reason status = let t = http_status_line status in take (length t - 15) (drop 13 t)

status_line_parts :
    (status : Status)
    → http_status_line status
      ≡ codes "HTTP/1.1 " ++ (decimal (number status) ++ (codes " " ++ (reason status ++ crlf)))
unfolding http_status_line decimal digits number reason
status_line_parts continue = refl
status_line_parts _ = refl

-- Each status line is of HTTP/1.1 and has the number of its status.
pub http_status_line_lem :
    (status : Status)
    → (reason : Text) × (http_status_line status
        ≡ codes "HTTP/1.1 " ++ (decimal (number status) ++ (codes " " ++ (reason ++ crlf))))
http_status_line_lem status = (reason status, status_line_parts status)

length-http_status_line : (status : Status) → leb (length (http_status_line status)) 60 ≡ true
unfolding http_status_line
length-http_status_line continue = refl
length-http_status_line _ = refl

pub print_length_lem : (n : ℕ) → print_length n ≡ print_int n
unfolding print_length
print_length_lem n = let h = length-print_int n in take_all 15 (print_int n) (omega arith)

length-http_status_tmpl :
    (t : Text) → length (http_status_tmpl t) ≡ length (http_status_tmpl []) + length t * 2
unfolding http_status_tmpl
length-http_status_tmpl t = ground (
  arith,
  length-append t
      (codes "</title></head><body><h1>" ++ (t ++ (codes "</h1></body></html>" ++ crlf))),
  length-append t (codes "</h1></body></html>" ++ crlf),
)

length-template : length (http_status_tmpl []) ≡ 65
unfolding http_status_tmpl
length-template = refl

length-http_status_stream_body :
    (status : Status)
    → length (http_status_stream_body status)
      ≡ length (http_status_tmpl []) + length (http_status_line status) * 2
unfolding http_status_stream_body
length-http_status_stream_body status =
    let page = http_status_tmpl (http_status_line status) in
    let whole = length-http_status_tmpl (http_status_line status) in
    let short = leb→le (length (http_status_line status)) 60 (length-http_status_line status) in
    let cut = length-take (length page) (take 1023 page) in
    let inner = length-take 1023 page in omega (arith, length-template)

-- A text appended under a key that has none is read, and no other key is changed.
different : strcase_eq (codes "Content-Type") (codes "Content-Length") ≡ false
unfolding strcase_eq lower tolower text_eq
different = refl

pub get-append_length :
    (ps : Params) (ctype t : Text)
    → get ps (codes "Content-Length") ≡ none
    → get
        (append
          (append ps (some (codes "Content-Type")) (some ctype))
          (some (codes "Content-Length"))
          (some t))
        (codes "Content-Length")
      ≡ some t
get-append_length ps ctype t h =
    let typed = append ps (some (codes "Content-Type")) (some ctype) in
    let old : get typed (codes "Content-Length") ≡ none =
      get-append ps (codes "Content-Type") ctype (codes "Content-Length") ∙ rw different h in
    get-append typed (codes "Content-Length") t (codes "Content-Length")
    ∙ rw (strcase_eq_refl (codes "Content-Length")) (ap (λ o. some (combined o t)) old)

-- `Content-Length` of the page for a status is the number of bytes that are written for it, if the
-- headers had none before.
pub content_length :
    (response_headers : Params) (status : Status)
    → get response_headers (codes "Content-Length") ≡ none
    → (t : Text) × (get
          (http_status_append_headers response_headers status)
          (codes "Content-Length")
        ≡ some t)
      × (value t 0 ≡ length (http_status_stream_body status))
unfolding http_status_append_headers
content_length response_headers status h =
    let n = length (http_status_tmpl []) + length (http_status_line status) * 2 in
    let short = leb→le (length (http_status_line status)) 60 (length-http_status_line status) in
    (
      print_length n,
      get-append_length response_headers (codes "text/html") (print_length n) h,
      ap (λ t. value t 0) (print_length_lem n)
          ∙ value-print_int n (omega (arith, length-template))
          ∙ sym (length-http_status_stream_body status),
    )
