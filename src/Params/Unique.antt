-- ===== src/Params/Unique.antt =====
-- src/params.h promises that field names are unique within a set, whatever their case. That
-- property, and `params_remove` of src/params.c under it.
use sighttpd.Prelude.{
  Bool, true, false, Text, Option, none, some, [], ◌∷◌, ◌≡◌, ◌≢◌, refl, arith, if◌then◌else◌,
  text_eq, strcase_eq, strcase_eq_congr, strcase_eq_symm, text_eq_sound, strcase_eq_refl,
}
use sighttpd.Params.{Params, get, append_text, append, replace_text, replace, merge, remove}
use sighttpd.Params.Lookup.{get-append_text, get-replace, get_congr}

-- No two entries have keys that differ in case only.
abbrev pub IsUnique : Params → Type 0
IsUnique [] = Unit
IsUnique (p ∷ ps) = (get ps p.key ≡ none) × IsUnique ps

append_text-IsUnique :
    (ps : Params) (key value : Text) → IsUnique ps → IsUnique (append_text ps key value)
unfolding append_text get
append_text-IsUnique [] key value h = (refl, tt)
append_text-IsUnique (p ∷ ps) key value (hp, h) = ground (
  arith,
  append_text-IsUnique ps key value h,
  get-append_text ps key value p.key,
  strcase_eq_symm p.key key,
)

-- `params_append` keeps the keys unique, also with a null key or value.
pub append-IsUnique :
    (ps : Params) (key value : Option Text) → IsUnique ps → IsUnique (append ps key value)
unfolding append
append-IsUnique ps none value h = h
append-IsUnique ps (some key) none h = h
append-IsUnique ps (some key) (some value) h = append_text-IsUnique ps key value h

replace_text-IsUnique :
    (ps : Params) (key value : Text) → IsUnique ps → IsUnique (replace_text ps key value)
unfolding replace_text get replace
replace_text-IsUnique [] key value h = (refl, tt)
replace_text-IsUnique (p ∷ ps) key value (hp, h) = ground (
  arith,
  replace_text-IsUnique ps key value h,
  get-replace ps key value p.key,
  strcase_eq_symm p.key key,
)

pub replace-IsUnique :
    (ps : Params) (key : Option Text) (value : Text) → IsUnique ps → IsUnique (replace ps key value)
unfolding replace
replace-IsUnique ps none value h = h
replace-IsUnique ps (some key) value h = replace_text-IsUnique ps key value h

pub merge-IsUnique : (dest src : Params) → IsUnique dest → IsUnique (merge dest src)
unfolding merge
merge-IsUnique dest [] h = h
merge-IsUnique dest (p ∷ src) h =
    merge-IsUnique (append dest (some p.key) (some p.value)) src
      (append-IsUnique dest (some p.key) (some p.value) h)

get-remove_absent : (ps : Params) (key j : Text) → get ps j ≡ none → get (remove ps key) j ≡ none
unfolding get remove
get-remove_absent [] key j h = h
get-remove_absent (p ∷ ps) key j h = ground (arith, get-remove_absent ps key j)

pub remove-IsUnique : (ps : Params) (key : Text) → IsUnique ps → IsUnique (remove ps key)
unfolding remove
remove-IsUnique [] key h = h
remove-IsUnique (p ∷ ps) key (hp, h) =
    ground (arith, remove-IsUnique ps key h, get-remove_absent ps key p.key)

-- Whether an entry has exactly this key.
pub has_exact : Params → Text → Bool
has_exact [] key = false
has_exact (p ∷ ps) key = if text_eq p.key key then true else has_exact ps key

get-has_exact : (ps : Params) (key : Text) → has_exact ps key ≡ true → get ps key ≢ none
unfolding get has_exact
get-has_exact [] key h = λ _. ground arith
get-has_exact (p ∷ ps) key h =
    ground (arith, get-has_exact ps key, text_eq_sound p.key key, strcase_eq_refl key)

-- `params_remove` on a set with unique keys: where an entry has exactly the key given, that entry
-- is gone, under every spelling of its key, and every other key reads as before; where none has,
-- every key reads as before, also a spelling of the key in another case.
pub get-remove :
    (ps : Params) (key j : Text)
    → IsUnique ps
    → get (remove ps key) j
      ≡ (if has_exact ps key then (if strcase_eq key j then none else get ps j) else get ps j)
unfolding get remove has_exact
get-remove [] key j h = refl
get-remove (p ∷ ps) key j (hp, h) = ground (
  arith,
  get-remove ps key j h,
  get-has_exact ps key,
  get_congr ps p.key j,
  get_congr ps p.key key,
  text_eq_sound p.key key,
  strcase_eq_symm key j,
  strcase_eq_congr p.key j key,
)
