-- ===== src/Request.antt =====
-- src/http-reqline.c and src/http-reqline.h: the request line of HTTP.
pub mod RoundTrip
pub mod Cut
mod Tests
use sighttpd.Prelude.{
  ℕ, suc, ◌+◌, ◌≤◌, Text, not, Option, none, some, List, [], ◌∷◌, if◌then◌else◌, ◌==◌, ltb, leb,
  codes, take, drop, length, strcspn, strspn, strn_eq,
}

-- `http_method`. (`HTTP_METHOD_EXTENSION` is never given.)
pub data Method : Type 0 where
  options get head post put delete trace connect extension : Method

-- `http_version`
pub data Version : Type 0 where
  http_0_9 http_1_0 http_1_1 : Version

-- `http_request`
pub record Request : Type 0 where
  pub original_reqline : Text
  pub method : Method
  pub path : Text
  pub version : Version

-- What comes of `http_request_parse`: `overread` where it reads behind the NUL of its input, `fail`
-- where it returns 0, else the number of bytes consumed and the request.
pub data Outcome : Type 0 where
  overread fail : Outcome
  done : ℕ → Request → Outcome

-- The methods of one length, with their names, tried in order by `strncmp`.
unfoldable pub method_of : ℕ → Text → Option Method
method_of span s =
    if span == 3
    then (if strn_eq s (codes "GET") 3
        then some get
        else if strn_eq s (codes "PUT") 3
        then some put
        else none)
    else if span == 4
    then (if strn_eq s (codes "HEAD") 4
        then some head
        else if strn_eq s (codes "POST") 4
        then some post
        else none)
    else if span == 5
    then (if strn_eq s (codes "TRACE") 5 then some trace else none)
    else if span == 6
    then (if strn_eq s (codes "DELETE") 6 then some delete else none)
    else if span == 7
    then (if strn_eq s (codes "OPTIONS") 7
        then some options
        else if strn_eq s (codes "CONNECT") 7
        then some connect
        else none)
    else none

unfoldable pub version_of : Text → Option Version
version_of s =
    if strn_eq s (codes "HTTP/1.1") 8
    then some http_1_1
    else if strn_eq s (codes "HTTP/1.0") 8
    then some http_1_0
    else if strn_eq s (codes "HTTP/0.9") 8
    then some http_0_9
    else none

abbrev pub crlf : Text
crlf = 13 ∷ 10 ∷ []

-- From the version on: `reqline` is the whole line, `consumed` what stands before the version.
unfoldable pub parse_version : Text → Method → Text → ℕ → Text → Outcome
parse_version reqline method path consumed s =
    let span = strcspn s crlf in
    let eol = strspn (drop span s) crlf in
    if not (span == 8) then fail else (elim (version_of s) [
      | none ↦ fail
      | some version ↦
          if ltb 2 eol
          then fail
          else done (consumed + span + eol) (record {
            original_reqline = take (consumed + span) reqline;
            method = method;
            path = path;
            version = version;
          })
    ])

-- From the path on. Without a SP behind the path the code goes on behind the NUL.
unfoldable pub parse_path : Text → Method → ℕ → Text → Outcome
parse_path reqline method consumed s =
    let span = strcspn s (codes " ") in
    if span == length s
    then overread
    else parse_version reqline method (take span s) (consumed + (span + 1)) (drop (span + 1) s)

-- `http_request_parse`; it does not read its `len`.
unfoldable pub parse : Text → Outcome
parse s =
    let span = strcspn s (codes " ") in
    elim (method_of span s) [
      | none ↦ fail
      | some method ↦
          if span == length s then overread else parse_path s method (span + 1) (drop (span + 1) s)
    ]
