-- ===== src/Resource.antt =====
-- src/resource.c and src/resource.h: what the server answers with, and three kinds of it, those of
-- src/statictext.c, src/status.c and src/flim.c. A `data` pointer is an argument of the functions
-- that a resource is made of. The two out parameters of a `head` are its result, the bytes that a
-- `body` writes are its.
pub mod Length
mod Tests
use sighttpd.Prelude.{
  ℕ, Text, Bool, Option, none, some, List, [], ◌∷◌, ◌++◌, codes, length, take, print_int, strn_eq,
  ltb, if◌then◌else◌,
}
use sighttpd.Params.{Params, append}
use sighttpd.Request.{Request}
use sighttpd.Status.{ok, http_status_line, print_length}
use sighttpd.Dictionary.{Dictionary, dictionary_lookup}

-- `ResourceCheck`, `ResourceHead`, `ResourceBody`
abbrev pub ResourceCheck : Type 0
ResourceCheck = Request → Bool

abbrev pub ResourceHead : Type 0
ResourceHead = Request → (request_headers response_headers : Params) → Text × Params

abbrev pub ResourceBody : Type 0
ResourceBody = Request → (request_headers : Params) → Text

-- `struct resource`
pub record Resource : Type 0 where
  pub check : ResourceCheck
  pub head : ResourceHead
  pub body : ResourceBody

-- `resource_new`
abbrev pub resource_new : ResourceCheck → ResourceHead → ResourceBody → Resource
resource_new check head body = record { check = check; head = head; body = body }

-- `struct statictext`
pub record Statictext : Type 0 where
  pub path : Text
  pub text : Text
  pub ctype : Text

unfoldable pub statictext_check : Statictext → ResourceCheck
statictext_check st request = strn_eq request.path st.path (length st.path)

unfoldable pub statictext_head : Statictext → ResourceHead
statictext_head st request request_headers response_headers =
    let r = append response_headers (some (codes "Content-Type")) (some st.ctype) in
    (
      http_status_line ok,
      append r (some (codes "Content-Length")) (some (print_length (length st.text))),
    )

unfoldable pub statictext_body : Statictext → ResourceBody
statictext_body st request request_headers = st.text

-- `statictext_resource`, with enough memory
unfoldable pub statictext_resource : (path text ctype : Text) → Resource
statictext_resource path text ctype =
    let st : Statictext = record { path = path; text = text; ctype = ctype } in
    resource_new (statictext_check st) (statictext_head st) (statictext_body st)

-- `if (!ctype) ctype = DEFAULT_CONTENT_TYPE;`
unfoldable pub content_type_or_default : Option Text → Text
content_type_or_default none = codes "text/plain"
content_type_or_default (some ctype) = ctype

-- `if (path && text) l = list_append (l, ...)` on a list that is empty.
unfoldable pub statictext_list : (path text : Option Text) → Text → List Resource
statictext_list (some path) (some text) ctype = statictext_resource path text ctype ∷ []
statictext_list (some path) none ctype = []
statictext_list none text ctype = []

unfoldable pub statictext_resources : (jenkins_hash : Text → ℕ) → Dictionary → List Resource
statictext_resources jenkins_hash config =
    statictext_list (dictionary_lookup jenkins_hash config (codes "Path"))
      (dictionary_lookup jenkins_hash config (codes "Text"))
      (content_type_or_default (dictionary_lookup jenkins_hash config (codes "Type")))

abbrev pub newline : Text
newline = 10 ∷ []

-- `FLIM_TEXT`
abbrev pub flim_text : Text
flim_text = codes "flim flim flim" ++ newline

unfoldable pub flim_check : ResourceCheck
flim_check request = strn_eq request.path (codes "/flim.txt") 9

unfoldable pub flim_append_headers : Params → Params
flim_append_headers response_headers =
    append (append response_headers (some (codes "Content-Type")) (some (codes "text/plain")))
      (some (codes "Content-Length")) (some (print_length (length flim_text)))

unfoldable pub flim_head : ResourceHead
flim_head request request_headers response_headers =
    (http_status_line ok, flim_append_headers response_headers)

unfoldable pub flim_body : ResourceBody
flim_body request request_headers = flim_text

unfoldable pub flim_resource : Resource
flim_resource = resource_new flim_check flim_head flim_body

unfoldable pub status_check : ResourceCheck
status_check request = strn_eq request.path (codes "/status") 7

unfoldable pub status_append_headers : Params → Params
status_append_headers response_headers =
    append response_headers (some (codes "Content-Type")) (some (codes "text/html"))

unfoldable pub status_head : ResourceHead
status_head request request_headers response_headers =
    (http_status_line ok, status_append_headers response_headers)

-- `STATUS_HEAD` filled in, and `STATUS_FOOT`
unfoldable pub status_head_text : (version : Text) → Text
status_head_text version =
    codes "<html>"
    ++ (newline
        ++ (codes "<head>"
            ++ (newline
                ++ (codes "<title>Sighttpd/"
                    ++ (version
                        ++ (codes " - Status</title>"
                            ++ (newline
                                ++ (codes "</head>"
                                    ++ (newline
                                        ++ (codes "<body>"
                                            ++ (newline
                                                ++ (codes "<h1>Sighttpd/"
                                                    ++ (version
                                                        ++ (codes " Status</h1>"
                                                            ++ newline))))))))))))))

abbrev pub status_foot : Text
status_foot = codes "</body>" ++ (newline ++ (codes "</head>" ++ newline))

-- One text that `status_body` prints into its 4096 bytes and writes: of a text that does not fit, the
-- 4095 bytes that do and the NUL.
unfoldable pub status_write : Text → Text
status_write t = if ltb (length t) 4096 then t else take 4095 t ++ 0 ∷ []

-- `active` is the number of resources of the server.
unfoldable pub status_body : (version : Text) (active : ℕ) → ResourceBody
status_body version active request request_headers =
    status_write (status_head_text version)
    ++ (status_write
          (codes "<p>Active resources: " ++ (print_int active ++ (codes "</p>" ++ newline)))
        ++ status_write status_foot)

unfoldable pub status_resource : (version : Text) (active : ℕ) → Resource
status_resource version active = resource_new status_check status_head (status_body version active)
