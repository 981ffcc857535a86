-- ===== src/Response/Tests.antt =====
-- Runs of src/http-response.c with two resources.
use sighttpd.Prelude.{true, false, [], ◌∷◌, ◌++◌, ◌≡◌, refl, codes, strn_eq, All}
use sighttpd.Request.{Request, get, head, http_1_1}
use sighttpd.Resource.{
  Resource, flim_resource, status_resource, flim_check, status_check, status_head, flim_head,
}
use sighttpd.Response.{response_headers_new, respond_get_body, respond}
use sighttpd.Response.Dispatch.{response, respond-get}
use sighttpd.Response.Refuse.{with_method, IsMethodBlind, respond-head}

abbrev get_flim : Request
get_flim = record {
  original_reqline = codes "GET /flim.txt HTTP/1.1";
  method = get;
  path = codes "/flim.txt";
  version = http_1_1;
}

abbrev status : Resource
status = status_resource (codes "1") 2

status-refuses : status.check get_flim ≡ false
unfolding status_resource status_check strn_eq
status-refuses = refl

flim-accepts : flim_resource.check get_flim ≡ true
unfolding flim_resource flim_check strn_eq
flim-accepts = refl

respond-get_example :
    respond (codes "today") (codes "1") (status ∷ flim_resource ∷ []) get_flim []
    ≡ response
        (flim_resource.head get_flim [] (response_headers_new (codes "today") (codes "1")))
        (flim_resource.body get_flim [])
respond-get_example =
    respond-get (codes "today") (codes "1") get_flim [] (status ∷ []) [] flim_resource refl
      (status-refuses, tt) flim-accepts

both-IsMethodBlind : All (IsMethodBlind get_flim) (status ∷ flim_resource ∷ [])
unfolding status_resource status_check status_head flim_resource flim_check flim_head
both-IsMethodBlind = ((refl, λ a b. refl), ((refl, λ a b. refl), tt))

respond-head_example :
    respond (codes "today") (codes "1") (status ∷ flim_resource ∷ []) (with_method get get_flim) []
    ≡ respond
        (codes "today")
        (codes "1")
        (status ∷ flim_resource ∷ [])
        (with_method head get_flim)
        []
      ++ respond_get_body (status ∷ flim_resource ∷ []) (with_method get get_flim) []
respond-head_example =
    respond-head (codes "today") (codes "1") (status ∷ flim_resource ∷ []) get_flim []
      both-IsMethodBlind
