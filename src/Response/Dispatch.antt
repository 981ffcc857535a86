-- ===== src/Response/Dispatch.antt =====
-- Which resource answers in src/http-response.c.
use sighttpd.Prelude.{Text, true, false, List, [], ◌∷◌, ◌++◌, ◌≡◌, refl, All}
use sighttpd.Params.{Params}
use sighttpd.Request.{Method, Request, get}
use sighttpd.Status.{
  not_found, http_status_line, http_status_append_headers, http_status_stream_body,
}
use sighttpd.Resource.{Resource}
use sighttpd.Response.{
  response_headers_new, params_writefd, respond_get_head, respond_get_body, respond_head,
  respond_body, respond,
}

-- The bytes of a response.
abbrev pub response : (status_line_and_headers : Text × Params) → (body : Text) → Text
response (status_line, response_headers) body =
    status_line ++ (params_writefd response_headers ++ body)

head-skip :
    (before after : List Resource) (request : Request) (request_headers response_headers : Params)
    → All (λ r. r.check request ≡ false) before
    → respond_get_head (before ++ after) request request_headers response_headers
      ≡ respond_get_head after request request_headers response_headers
unfolding respond_get_head
head-skip [] after request request_headers response_headers h = refl
head-skip (r ∷ before) after request request_headers response_headers (e, h) =
    rw e (head-skip before after request request_headers response_headers h)

body-skip :
    (before after : List Resource) (request : Request) (request_headers : Params)
    → All (λ r. r.check request ≡ false) before
    → respond_get_body (before ++ after) request request_headers
      ≡ respond_get_body after request request_headers
unfolding respond_get_body
body-skip [] after request request_headers h = refl
body-skip (r ∷ before) after request request_headers (e, h) =
    rw e (body-skip before after request request_headers h)

head-none :
    (resources : List Resource) (request : Request) (request_headers response_headers : Params)
    → All (λ r. r.check request ≡ false) resources
    → respond_get_head resources request request_headers response_headers
      ≡ (http_status_line not_found, http_status_append_headers response_headers not_found)
unfolding respond_get_head
head-none [] request request_headers response_headers h = refl
head-none (r ∷ resources) request request_headers response_headers (e, h) =
    rw e (head-none resources request request_headers response_headers h)

body-none :
    (resources : List Resource) (request : Request) (request_headers : Params)
    → All (λ r. r.check request ≡ false) resources
    → respond_get_body resources request request_headers ≡ http_status_stream_body not_found
unfolding respond_get_body
body-none [] request request_headers h = refl
body-none (r ∷ resources) request request_headers (e, h) =
    rw e (body-none resources request request_headers h)

respond_head-get :
    (m : Method) (resources : List Resource) (request : Request)
    (request_headers response_headers : Params)
    → m ≡ get
    → respond_head m resources request request_headers response_headers
      ≡ respond_get_head resources request request_headers response_headers
unfolding respond_head
respond_head-get m resources request request_headers response_headers e = rw e

respond_body-get :
    (m : Method) (resources : List Resource) (request : Request) (request_headers : Params)
    → m ≡ get
    → respond_body m resources request request_headers
      ≡ respond_get_body resources request request_headers
unfolding respond_body
respond_body-get m resources request request_headers e = rw e

module _ (date version : Text) (request : Request) (request_headers : Params) where
  -- A GET is answered by the first resource whose check accepts it, with its head and its body.
  pub respond-get :
      (before after : List Resource) (r : Resource)
      → request.method ≡ get
      → All (λ s. s.check request ≡ false) before
      → r.check request ≡ true
      → respond date version (before ++ r ∷ after) request request_headers
        ≡ response
            (r.head request request_headers (response_headers_new date version))
            (r.body request request_headers)
  unfolding respond respond_get_head respond_get_body
  respond-get before after r m h e =
      let hs = response_headers_new date version in
      rw (
        respond_head-get request.method (before ++ r ∷ after) request request_headers hs m,
        respond_body-get request.method (before ++ r ∷ after) request request_headers m,
        head-skip before (r ∷ after) request request_headers hs h,
        body-skip before (r ∷ after) request request_headers h,
        respond_get_head,
        respond_get_body,
        e,
      )

  -- A GET that no resource accepts is answered by the page for 404 and its headers.
  pub respond-get_not_found :
      (resources : List Resource)
      → request.method ≡ get
      → All (λ s. s.check request ≡ false) resources
      → respond date version resources request request_headers
        ≡ response
            (
              http_status_line not_found,
              http_status_append_headers (response_headers_new date version) not_found,
            )
            (http_status_stream_body not_found)
  unfolding respond
  respond-get_not_found resources m h =
      let hs = response_headers_new date version in
      rw (
        respond_head-get request.method resources request request_headers hs m,
        respond_body-get request.method resources request request_headers m,
        head-none resources request request_headers hs h,
        body-none resources request request_headers h,
      )
