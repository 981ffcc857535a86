-- ===== src/Params.antt =====
-- src/params.c: a set of parameters, kept as a list of (key, value) in order of first insertion.
-- The struct and the operations on the list; the children print, parse and prove.
pub mod Lookup
pub mod Unique
pub mod Print
pub mod Parse
pub mod Headers
mod Tests
use sighttpd.Prelude.{
  ℕ, Text, Option, none, some, List, [], ◌∷◌, ◌++◌, if◌then◌else◌, text_eq, strcase_eq, codes, ◌==◌,
}

-- `params_t` of params.c (`void` to its clients).
pub record Param : Type 0 where
  pub key : Text
  pub value : Text

abbrev pub Params : Type 0
Params = List Param

-- `param_new`: copies of the key and of the value.
abbrev pub param_new : Text → Text → Param
param_new key value = record { key = key; value = value }

-- `params_get`; `none` is NULL.
unfoldable pub get : Params → Text → Option Text
get [] key = none
get (p ∷ ps) key = if strcase_eq p.key key then some p.value else get ps key

-- `params_add`: `list_append` of a new entry.
abbrev pub add : Params → Text → Text → Params
add ps key value = ps ++ param_new key value ∷ []

-- The text that `sprintf(new_value, "%s,%s", p->value, value)` writes.
abbrev pub joined : Text → Text → Text
joined old value = old ++ (codes "," ++ value)

-- The loop of `params_append` over the entries, and its `params_add` behind the last.
unfoldable pub append_text : Params → Text → Text → Params
append_text [] key value = add [] key value
append_text (p ∷ ps) key value =
    if strcase_eq p.key key
    then record p { value = joined p.value value } ∷ ps
    else p ∷ append_text ps key value

-- `params_append`; `none` is a null key or value.
unfoldable pub append : Params → Option Text → Option Text → Params
append ps none value = ps
append ps (some key) none = ps
append ps (some key) (some value) = append_text ps key value

-- The loop of `params_replace`.
unfoldable pub replace_text : Params → Text → Text → Params
replace_text [] key value = add [] key value
replace_text (p ∷ ps) key value =
    if strcase_eq p.key key then record p { value = value } ∷ ps else p ∷ replace_text ps key value

-- `params_replace`, with a value that is not null.
unfoldable pub replace : Params → Option Text → Text → Params
replace ps none value = ps
replace ps (some key) value = replace_text ps key value

-- `params_merge`
unfoldable pub merge : Params → Params → Params
merge dest [] = dest
merge dest (p ∷ src) = merge (append dest (some p.key) (some p.value)) src

-- `params_remove`: the key is compared by `strcmp`.
unfoldable pub remove : Params → Text → Params
remove [] key = []
remove (p ∷ ps) key = if text_eq p.key key then ps else p ∷ remove ps key

-- `params_foreach`. The callback takes the key, the value and the user data to new user data and
-- its result; a result other than 0 ends the loop and is returned.
unfoldable pub foreach {ℓ} : {S : Type ℓ} → Params → (Text → Text → S → S × ℕ) → S → S × ℕ
foreach [] func user = (user, 0)
foreach (p ∷ ps) func user =
    let (user', ret) = func p.key p.value user in
    let rest = foreach ps func user' in if ret == 0 then rest else (user', ret)
