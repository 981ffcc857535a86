-- ===== src/Response/Refuse.antt =====
-- src/http-response.c on HEAD and on the methods that it refuses.
use sighttpd.Prelude.{
  Text, some, List, [], ◌∷◌, ◌++◌, ◌≡◌, ◌≢◌, refl, ap, codes, All, append-nil, append_assoc,
  strcase_eq, lower, tolower, text_eq,
}
use sighttpd.Params.{Params, append, append_text}
use sighttpd.Params as Params
use sighttpd.Request.{Method, Request, get, head}
use sighttpd.Status.{method_not_allowed, http_status_line}
use sighttpd.Resource.{Resource}
use sighttpd.Response.{
  response_headers_new, params_writefd, respond_get_head, respond_get_body, respond_head,
  respond_body, respond, respond_method_not_allowed,
}

-- The request with another method.
abbrev pub with_method : Method → Request → Request
with_method m request = record request { method = m }

-- The check and the head of a resource answer a GET and a HEAD alike.
abbrev pub IsMethodBlind : Request → Resource → Type 0
IsMethodBlind request r =
    (r.check (with_method get request) ≡ r.check (with_method head request))
    × ((request_headers response_headers : Params)
        → r.head (with_method get request) request_headers response_headers
          ≡ r.head (with_method head request) request_headers response_headers)

respond_get_head_blind :
    (resources : List Resource) (request : Request) (request_headers response_headers : Params)
    → All (IsMethodBlind request) resources
    → respond_get_head resources (with_method get request) request_headers response_headers
      ≡ respond_get_head resources (with_method head request) request_headers response_headers
unfolding respond_get_head
respond_get_head_blind [] request request_headers response_headers h = refl
respond_get_head_blind (r ∷ resources) request request_headers response_headers ((c, e), h) =
    rw
      (
        c,
        e request_headers response_headers,
        respond_get_head_blind resources request request_headers response_headers h,
      )
      refl

glue :
    (r : Text × Params) (body : Text)
    → r.0 ++ (params_writefd r.1 ++ body) ≡ (r.0 ++ (params_writefd r.1 ++ [])) ++ body
glue (status_line, response_headers) body = simp (append_assoc, append-nil)

respond_refused :
    (m : Method) (resources : List Resource) (request : Request)
    (request_headers response_headers : Params)
    → m ≢ get
    → m ≢ head
    → (respond_head m resources request request_headers response_headers
        ≡ respond_method_not_allowed response_headers)
      × (respond_body m resources request request_headers ≡ [])
unfolding respond_head respond_body
respond_refused get resources request request_headers response_headers g h = absurd (g refl)
respond_refused head resources request request_headers response_headers g h = absurd (h refl)
respond_refused _ resources request request_headers response_headers g h = (refl, refl)

-- Nothing before it sets `Allow`, and the second value is appended to the first.
get-allow :
    (date version : Text)
    → Params.get (respond_method_not_allowed (response_headers_new date version)).1 (codes "Allow")
      ≡ some (codes "GET,HEAD")
unfolding respond_method_not_allowed response_headers_new append append_text Params.get strcase_eq
    lower tolower text_eq
get-allow date version = refl

module _ (date version : Text) (resources : List Resource) (request : Request)
    (request_headers : Params) where
  -- Where the resources answer a GET and a HEAD alike, a HEAD is answered with the bytes of the GET
  -- up to its body, which is that of the GET.
  pub respond-head :
      All (IsMethodBlind request) resources
      → respond date version resources (with_method get request) request_headers
        ≡ respond date version resources (with_method head request) request_headers
          ++ respond_get_body resources (with_method get request) request_headers
  unfolding respond respond_head respond_body
  respond-head h =
      let hs = response_headers_new date version in
      rw (respond_get_head_blind resources request request_headers hs h) (
        glue (respond_get_head resources (with_method head request) request_headers hs)
          (respond_get_body resources (with_method get request) request_headers))

  -- A request with a method other than GET and HEAD is answered by 405, the header `Allow: GET,HEAD`
  -- and no body.
  pub respond-method_not_allowed :
      request.method ≢ get
      → request.method ≢ head
      → (response_headers : Params) × (respond date version resources request request_headers
          ≡ http_status_line method_not_allowed ++ params_writefd response_headers)
        × (Params.get response_headers (codes "Allow") ≡ some (codes "GET,HEAD"))
  unfolding respond respond_method_not_allowed
  respond-method_not_allowed g h =
      let hs = response_headers_new date version in
      let (a, b) = respond_refused request.method resources request request_headers hs g h in
      (
        (respond_method_not_allowed hs).1,
        rw (a, b) (ap (λ t. http_status_line method_not_allowed ++ t) (append-nil _)),
        get-allow date version,
      )
