-- ===== src/Uiomux.antt =====
-- src/uiomux.c: the page that shows what the command uiomux prints.
use sighttpd.Prelude.{Text, some, ◌++◌, codes, strn_eq}
use sighttpd.Params.{Params, append}
use sighttpd.Resource.{
  Resource, ResourceCheck, ResourceHead, ResourceBody, resource_new, newline, status_write,
}
use sighttpd.Status.{ok, http_status_line}
use sighttpd.Shell.{Popen, shell_stream}

-- `UIOMUX_HEADER`, filled in
unfoldable pub uiomux_header : (version : Text) → Text
uiomux_header version =
    codes "<html>"
    ++ (newline
        ++ (codes "<head>"
            ++ (newline
                ++ (codes "<title>Sighttpd/"
                    ++ (version
                        ++ (codes " - UIOMux</title>"
                            ++ (newline
                                ++ (codes "</head>"
                                    ++ (newline
                                        ++ (codes "<body>"
                                            ++ (newline
                                                ++ (codes "<h1>UIOMux status</h1>"
                                                    ++ (newline ++ codes "<pre>")))))))))))))

-- `UIOMUX_FOOTER`
unfoldable pub uiomux_footer : Text
uiomux_footer =
    codes "</pre>" ++ (newline ++ (codes "</body>" ++ (newline ++ (codes "</head>" ++ newline))))

unfoldable pub uiomux_check : ResourceCheck
uiomux_check request = strn_eq request.path (codes "/uiomux") 7

unfoldable pub uiomux_append_headers : Params → Params
uiomux_append_headers response_headers =
    append response_headers (some (codes "Content-Type")) (some (codes "text/html"))

unfoldable pub uiomux_head : ResourceHead
uiomux_head request request_headers response_headers =
    (http_status_line ok, uiomux_append_headers response_headers)

-- `uiomux_body`: what it writes, where the 4096 bytes of its buffer cut the header as those of
-- `status_body` do.
unfoldable pub uiomux_body : (version : Text) → Popen → ResourceBody
uiomux_body version popen request request_headers =
    status_write (uiomux_header version)
    ++ (shell_stream popen (codes "uiomux info")
        ++ (shell_stream popen (codes "uiomux meminfo") ++ status_write uiomux_footer))

unfoldable pub uiomux_resource : (version : Text) → Popen → Resource
uiomux_resource version popen = resource_new uiomux_check uiomux_head (uiomux_body version popen)
