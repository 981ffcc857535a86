-- ===== src/Resource/Length.antt =====
-- The `Content-Length` of src/statictext.c and src/flim.c.
use sighttpd.Prelude.{
  ℕ, ◌^◌, ◌<◌, Text, none, some, ◌≡◌, ap, ◌∙◌, codes, length, value, value-print_int,
}
use sighttpd.Params.{Params, get}
use sighttpd.Request.{Request}
use sighttpd.Status.{print_length}
use sighttpd.Status.Page.{print_length_lem, get-append_length}
use sighttpd.Resource.{Statictext, statictext_head, statictext_body}

value-print_length : (n : ℕ) → n < 2 ^ 31 → value (print_length n) 0 ≡ n
value-print_length n h = ap (λ t. value t 0) (print_length_lem n) ∙ value-print_int n h

-- Where the response has no `Content-Length` yet, that of a static text below 2 GiB is the number of
-- bytes of its body.
pub statictext_length :
    (st : Statictext) (request : Request) (request_headers response_headers : Params)
    → get response_headers (codes "Content-Length") ≡ none
    → length st.text < 2 ^ 31
    → (t : Text) × (get
          (statictext_head st request request_headers response_headers).1
          (codes "Content-Length")
        ≡ some t)
      × (value t 0 ≡ length (statictext_body st request request_headers))
unfolding statictext_head statictext_body
statictext_length st request request_headers response_headers h small = (
  print_length (length st.text),
  get-append_length response_headers st.ctype (print_length (length st.text)) h,
  value-print_length (length st.text) small,
)
