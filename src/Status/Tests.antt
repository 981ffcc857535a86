-- ===== src/Status/Tests.antt =====
-- Runs of src/http-status.c.
use sighttpd.Prelude.{none, [], ◌∷◌, ◌≡◌, refl, codes, strcase_eq, lower, tolower, text_eq}
use sighttpd.Params.{Params, param_new, get}

abbrev dated : Params
dated = param_new (codes "Date") (codes "today") ∷ []

dated_no_length : get dated (codes "Content-Length") ≡ none
unfolding get strcase_eq lower tolower text_eq
dated_no_length = refl
