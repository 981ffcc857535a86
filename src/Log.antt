-- ===== src/Log.antt =====
-- `log_access` of src/log.c: what goes to standard output and to the access log.
use sighttpd.Prelude.{Text, Option, none, some, ◌++◌, codes}
use sighttpd.Params.{Params, get}
use sighttpd.Params.Print.{headers, snprint, crlf}
use sighttpd.Request.{Request}
use sighttpd.Resource.{newline}
use sighttpd.Response.{printed_text}

-- `if ((date = params_get (...)) == NULL) date = "";`
unfoldable pub or_empty : Option Text → Text
or_empty none = codes ""
or_empty (some t) = t

-- `puts (canon)`, less what `canon` holds where nothing is printed to it.
unfoldable pub dumped : (request_headers : Params) → Text
dumped request_headers = printed_text (snprint 1024 request_headers headers) ++ newline

-- The line of `LOG_FMT`, whose status is 200 for every response.
unfoldable pub access_line : (date reqline content_length user_agent : Text) → Text
access_line date reqline content_length user_agent =
    codes "["
    ++ (date
        ++ (codes "] \""
            ++ (reqline
                ++ (codes "\" 200 "
                    ++ (content_length ++ (codes " \"" ++ (user_agent ++ (codes "\"" ++ crlf))))))))

unfoldable pub log_access : Request → (request_headers response_headers : Params) → Text × Text
log_access request request_headers response_headers = (
  dumped request_headers,
  access_line (or_empty (get response_headers (codes "Date"))) request.original_reqline
      (or_empty (get response_headers (codes "Content-Length")))
      (or_empty (get request_headers (codes "User-Agent"))),
)
