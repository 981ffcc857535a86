-- ===== src/Params/Lookup.antt =====
-- What `params_get` finds after each operation of src/params.c on the list.
use sighttpd.Prelude.{
  true, Text, Option, none, some, [], ◌∷◌, ◌≡◌, refl, ◌∙◌, arith, if◌then◌else◌, strcase_eq,
  strcase_eq_congr, strcase_eq_congr_right,
}
use sighttpd.Params.{Params, joined, get, append_text, append, replace_text, replace, merge}

-- The value of a field to which `value` is added: RFC 2616 4.2.
abbrev pub combined : Option Text → Text → Text
combined none value = value
combined (some old) value = joined old value

pub get-append_text :
    (ps : Params) (key value j : Text)
    → get (append_text ps key value) j
      ≡ (if strcase_eq key j then some (combined (get ps key) value) else get ps j)
unfolding get append_text
get-append_text [] key value j = refl
get-append_text (p ∷ ps) key value j = ground (
  arith,
  get-append_text ps key value j,
  strcase_eq_congr p.key key j,
  strcase_eq_congr_right key j p.key,
)

-- After `params_append` of a key and a value, `params_get` of any spelling of the key gives the old
-- value, a comma and the new one (the new one alone where there was none), and every other key
-- reads as before.
pub get-append :
    (ps : Params) (key value j : Text)
    → get (append ps (some key) (some value)) j
      ≡ (if strcase_eq key j then some (combined (get ps key) value) else get ps j)
unfolding append
get-append = get-append_text

-- After `params_replace`, any spelling of the key reads as the new value, and every other key
-- reads as before.
pub get-replace :
    (ps : Params) (key value j : Text)
    → get (replace ps (some key) value) j ≡ (if strcase_eq key j then some value else get ps j)
unfolding get replace replace_text
get-replace [] key value j = refl
get-replace (p ∷ ps) key value j = ground (
  arith,
  get-replace ps key value j,
  strcase_eq_congr p.key key j,
  strcase_eq_congr_right key j p.key,
)

-- `params_get` reads the same under every spelling of a key.
pub get_congr : (ps : Params) (a b : Text) → strcase_eq a b ≡ true → get ps a ≡ get ps b
unfolding get
get_congr [] a b h = refl
get_congr (p ∷ ps) a b h = ground (arith, get_congr ps a b, strcase_eq_congr_right a b p.key)

-- The values that a list of parameters adds under one key, one after the other.
pub collect : Params → Text → Option Text → Option Text
collect [] j old = old
collect (p ∷ ps) j old =
    collect ps j (if strcase_eq p.key j then some (combined old p.value) else old)

-- `params_get` after `params_merge` reads the value of the destination with the values of every
-- entry of the source under that key behind it, in the order of the source.
pub get-merge : (dest src : Params) (j : Text) → get (merge dest src) j ≡ collect src j (get dest j)
unfolding merge collect
get-merge dest [] j = refl
get-merge dest (p ∷ src) j =
    get-merge (append dest (some p.key) (some p.value)) src j
    ∙ rw (get-append dest p.key p.value j) (ground (arith, get_congr dest p.key j))
