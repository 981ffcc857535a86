-- ===== src/Status.antt =====
-- src/http-status.c and src/http-status.h: the status line of a response, and the page that stands
-- for a status.
pub mod Page
mod Tests
use sighttpd.Prelude.{
  ℕ, ◌+◌, ◌-◌, ◌*◌, Text, some, List, [], ◌∷◌, ◌++◌, codes, length, take, print_int, min, map,
}
use sighttpd.Params.{Params, append}

-- `http_status`
pub data Status : Type 0 where
  continue switching_protocols ok created accepted non_authoritative_information no_content
        reset_content partial_content multiple_choices moved_permanently found see_other
        not_modified use_proxy temporary_redirect bad_request unauthorized payment_required
        forbidden not_found method_not_allowed not_acceptable proxy_authentication_required
        request_timeout conflict gone length_required precondition_failed request_entity_too_large
        request_uri_too_large unsupported_media_type requested_range_not_satisfiable
        expectation_failed internal_server_error not_implemented bad_gateway service_unavailable
        gateway_timeout http_version_not_supported :
      Status

-- The number of a status.
unfoldable pub number : Status → ℕ
number continue = 100
number switching_protocols = 101
number ok = 200
number created = 201
number accepted = 202
number non_authoritative_information = 203
number no_content = 204
number reset_content = 205
number partial_content = 206
number multiple_choices = 300
number moved_permanently = 301
number found = 302
number see_other = 303
number not_modified = 304
number use_proxy = 305
number temporary_redirect = 307
number bad_request = 400
number unauthorized = 401
number payment_required = 402
number forbidden = 403
number not_found = 404
number method_not_allowed = 405
number not_acceptable = 406
number proxy_authentication_required = 407
number request_timeout = 408
number conflict = 409
number gone = 410
number length_required = 411
number precondition_failed = 412
number request_entity_too_large = 413
number request_uri_too_large = 414
number unsupported_media_type = 415
number requested_range_not_satisfiable = 416
number expectation_failed = 417
number internal_server_error = 500
number not_implemented = 501
number bad_gateway = 502
number service_unavailable = 503
number gateway_timeout = 504
number http_version_not_supported = 505

abbrev pub crlf : Text
crlf = 13 ∷ 10 ∷ []

-- `http_status_line`
unfoldable pub http_status_line : Status → Text
http_status_line continue = codes "HTTP/1.1 100 Continue" ++ crlf
http_status_line switching_protocols = codes "HTTP/1.1 101 Switching Protocols" ++ crlf
http_status_line ok = codes "HTTP/1.1 200 OK" ++ crlf
http_status_line created = codes "HTTP/1.1 201 Created" ++ crlf
http_status_line accepted = codes "HTTP/1.1 202 Accepted" ++ crlf
http_status_line non_authoritative_information =
    codes "HTTP/1.1 203 Non-Authoritative Information" ++ crlf
http_status_line no_content = codes "HTTP/1.1 204 No Content" ++ crlf
http_status_line reset_content = codes "HTTP/1.1 205 Reset Content" ++ crlf
http_status_line partial_content = codes "HTTP/1.1 206 Partial Content" ++ crlf
http_status_line multiple_choices = codes "HTTP/1.1 300 Multiple Choices" ++ crlf
http_status_line moved_permanently = codes "HTTP/1.1 301 Moved Permanently" ++ crlf
http_status_line found = codes "HTTP/1.1 302 Found" ++ crlf
http_status_line see_other = codes "HTTP/1.1 303 See Other" ++ crlf
http_status_line not_modified = codes "HTTP/1.1 304 Not Modified" ++ crlf
http_status_line use_proxy = codes "HTTP/1.1 305 Use Proxy" ++ crlf
http_status_line temporary_redirect = codes "HTTP/1.1 307 Temporary Redirect" ++ crlf
http_status_line bad_request = codes "HTTP/1.1 400 Bad Request" ++ crlf
http_status_line unauthorized = codes "HTTP/1.1 401 Unauthorized" ++ crlf
http_status_line payment_required = codes "HTTP/1.1 402 Payment Required" ++ crlf
http_status_line forbidden = codes "HTTP/1.1 403 Forbidden" ++ crlf
http_status_line not_found = codes "HTTP/1.1 404 Not Found" ++ crlf
http_status_line method_not_allowed = codes "HTTP/1.1 405 Method Not Allowed" ++ crlf
http_status_line not_acceptable = codes "HTTP/1.1 406 Not Acceptable" ++ crlf
http_status_line proxy_authentication_required =
    codes "HTTP/1.1 407 Proxy Authentication Required" ++ crlf
http_status_line request_timeout = codes "HTTP/1.1 408 Request Time-out" ++ crlf
http_status_line conflict = codes "HTTP/1.1 409 Conflict" ++ crlf
http_status_line gone = codes "HTTP/1.1 410 Gone" ++ crlf
http_status_line length_required = codes "HTTP/1.1 411 Length Required" ++ crlf
http_status_line precondition_failed = codes "HTTP/1.1 412 Precondition Failed" ++ crlf
http_status_line request_entity_too_large = codes "HTTP/1.1 413 Request Entity Too Large" ++ crlf
http_status_line request_uri_too_large = codes "HTTP/1.1 414 Request-URI Too Large" ++ crlf
http_status_line unsupported_media_type = codes "HTTP/1.1 415 Unsupported Media Type" ++ crlf
http_status_line requested_range_not_satisfiable =
    codes "HTTP/1.1 416 Requested range not satisfiable" ++ crlf
http_status_line expectation_failed = codes "HTTP/1.1 417 Expectation Failed" ++ crlf
http_status_line internal_server_error = codes "HTTP/1.1 500 Internal Server Error" ++ crlf
http_status_line not_implemented = codes "HTTP/1.1 501 Not Implemented" ++ crlf
http_status_line bad_gateway = codes "HTTP/1.1 502 Bad Gateway" ++ crlf
http_status_line service_unavailable = codes "HTTP/1.1 503 Service Unavailable" ++ crlf
http_status_line gateway_timeout = codes "HTTP/1.1 504 Gateway Time-out" ++ crlf
http_status_line http_version_not_supported =
    codes "HTTP/1.1 505 HTTP Version not supported" ++ crlf

-- `HTTP_STATUS_TMPL` with its two `%s` filled in; with empty texts, the template less its four
-- bytes `%s%s`.
unfoldable pub http_status_tmpl : Text → Text
http_status_tmpl status_line =
    codes "<html><head><title>"
    ++ (status_line
        ++ (codes "</title></head><body><h1>"
            ++ (status_line ++ (codes "</h1></body></html>" ++ crlf))))

-- `snprintf (length, 16, "%d", n)`
unfoldable pub print_length : ℕ → Text
print_length n = take 15 (print_int n)

-- `http_status_append_headers`
unfoldable pub http_status_append_headers : Params → Status → Params
http_status_append_headers response_headers status =
    let n = length (http_status_line status) in
    append (append response_headers (some (codes "Content-Type")) (some (codes "text/html")))
      (some (codes "Content-Length")) (some (print_length (length (http_status_tmpl []) + n * 2)))

-- The bytes that `http_status_stream_body` writes: `n` bytes of a buffer that holds at most 1023 of the
-- text. (No status line is so long that `n` is more than that.)
unfoldable pub http_status_stream_body : Status → Text
http_status_stream_body status =
    let page = http_status_tmpl (http_status_line status) in take (length page) (take 1023 page)
