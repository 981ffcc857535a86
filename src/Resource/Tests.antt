-- ===== src/Resource/Tests.antt =====
-- A run of src/statictext.c.
use sighttpd.Prelude.{none, [], ◌≡◌, refl, codes}
use sighttpd.Params.{get}
use sighttpd.Request.{Request, http_1_1}
use sighttpd.Request as Request
use sighttpd.Resource.{Statictext}

abbrev robots : Statictext
robots = record {
  path = codes "/robots.txt";
  text = codes "User-agent: *";
  ctype = codes "text/plain";
}

abbrev get_robots : Request.Request
get_robots = record {
  original_reqline = codes "GET /robots.txt HTTP/1.1";
  method = Request.get;
  path = codes "/robots.txt";
  version = http_1_1;
}

no_length : get [] (codes "Content-Length") ≡ none
unfolding get
no_length = refl
