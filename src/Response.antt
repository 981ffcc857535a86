-- ===== src/Response.antt =====
-- src/http-response.c: the answer to one request, as the bytes written to the socket.
pub mod Dispatch
pub mod Refuse
pub mod Serve
pub mod Spans
pub mod Tail
pub mod Behind
pub mod Rounds
pub mod Reads
pub mod Cut
mod Tests
use sighttpd.Prelude.{
  ℕ, Text, Bool, true, false, Option, none, some, List, [], ◌∷◌, ◌++◌, codes, if◌then◌else◌, drop,
}
use sighttpd.Params.{Params, append}
use sighttpd.Params.Print.{Buffer, headers, snprint, text}
use sighttpd.Request.{Method, Request, get, head}
use sighttpd.Status.{
  not_found, method_not_allowed, http_status_line, http_status_append_headers,
  http_status_stream_body,
}
use sighttpd.Resource.{Resource}

-- `response_headers_new`, with the date of `httpdate_snprint` and the `VERSION` of the build.
unfoldable pub response_headers_new : (date version : Text) → Params
response_headers_new date version =
    append (append [] (some (codes "Date")) (some date)) (some (codes "Server"))
      (some (codes "Sighttpd/" ++ version))

-- What is in `headers_out` after `params_snprint`; nothing where it wrote none of it.
unfoldable pub printed_text : Option (Buffer × ℕ) → Text
printed_text none = []
printed_text (some (buf, len)) = text buf

-- `params_writefd`
unfoldable pub params_writefd : Params → Text
params_writefd params = printed_text (snprint 1024 params headers)

-- `respond_get_head`: the first resource whose check accepts the request.
unfoldable pub respond_get_head :
    List Resource → Request → (request_headers response_headers : Params) → Text × Params
respond_get_head [] request request_headers response_headers =
    (http_status_line not_found, http_status_append_headers response_headers not_found)
respond_get_head (r ∷ resources) request request_headers response_headers =
    if r.check request
    then r.head request request_headers response_headers
    else respond_get_head resources request request_headers response_headers

-- `respond_get_body`
unfoldable pub respond_get_body : List Resource → Request → (request_headers : Params) → Text
respond_get_body [] request request_headers = http_status_stream_body not_found
respond_get_body (r ∷ resources) request request_headers =
    if r.check request
    then r.body request request_headers
    else respond_get_body resources request request_headers

-- `respond_method_not_allowed`
unfoldable pub respond_method_not_allowed : Params → Text × Params
respond_method_not_allowed response_headers = (
  http_status_line method_not_allowed,
  append (append response_headers (some (codes "Allow")) (some (codes "GET")))
      (some (codes "Allow")) (some (codes "HEAD")),
)

-- The `switch` of `respond` on the method.
unfoldable pub respond_head :
    Method → List Resource → Request → (request_headers response_headers : Params) → Text × Params
respond_head head resources request request_headers response_headers =
    respond_get_head resources request request_headers response_headers
respond_head get resources request request_headers response_headers =
    respond_get_head resources request request_headers response_headers
respond_head _ resources request request_headers response_headers =
    respond_method_not_allowed response_headers

-- `if (request->method == HTTP_METHOD_GET) respond_get_body (...)`
unfoldable pub respond_body : Method → List Resource → Request → (request_headers : Params) → Text
respond_body get resources request request_headers =
    respond_get_body resources request request_headers
respond_body _ resources request request_headers = []

-- `respond`
unfoldable pub respond :
    (date version : Text) → List Resource → Request → (request_headers : Params) → Text
respond date version resources request request_headers =
    let r =
      respond_head request.method resources request request_headers
        (response_headers_new date version) in
    r.0 ++ (params_writefd r.1 ++ respond_body request.method resources request request_headers)
