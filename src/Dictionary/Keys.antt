-- ===== src/Dictionary/Keys.antt =====
-- The order of the names of src/dictionary.c and the test for names that differ in case only.
use sighttpd.Prelude.{
  ℕ, Text, true, false, [], ◌∷◌, ◌≡◌, ◌≢◌, refl, ap, ap₂, ◌∙◌, arith, lower, tolower, text_eq,
  text_eq_sound, strcase_eq, Option,
}
use sighttpd.Tree.{eq}
use sighttpd.Dictionary.{variable_new, compare, strcasecmp, variable_cmp}

compare-text_eq : (a b : Text) → compare a b ≡ eq → text_eq a b ≡ true
unfolding compare text_eq
compare-text_eq [] [] h = refl
compare-text_eq [] (d ∷ b) h = ground arith
compare-text_eq (c ∷ a) [] h = ground arith
compare-text_eq (c ∷ a) (d ∷ b) h = ground (arith, compare-text_eq a b)

compare_refl : (a : Text) → compare a a ≡ eq
unfolding compare
compare_refl [] = refl
compare_refl (c ∷ a) = ground (arith, compare_refl a)

tolower_idem : (c : ℕ) → tolower (tolower c) ≡ tolower c
unfolding tolower
tolower_idem c = ground arith

pub lower_idem : (a : Text) → lower (lower a) ≡ lower a
unfolding lower
lower_idem [] = refl
lower_idem (c ∷ a) = ap₂ ◌∷◌ (tolower_idem c) (lower_idem a)

-- Names that are found for one another differ in case only.
pub strcasecmp-strcase_eq : (a b : Text) → strcasecmp a b ≡ eq → strcase_eq a b ≡ true
unfolding strcasecmp strcase_eq
strcasecmp-strcase_eq a b = compare-text_eq (lower a) (lower b)

pub strcasecmp_congr : (a b c : Text) → strcase_eq a b ≡ true → strcasecmp a c ≡ strcasecmp b c
unfolding strcasecmp strcase_eq
strcasecmp_congr a b c h = ap (λ x. compare x (lower c)) (text_eq_sound (lower a) (lower b) h)

-- A new variable is found under its name.
pub variable_cmp-variable_new :
    (name : Text) (value : Option Text) → variable_cmp name (variable_new name value) ≡ eq
unfolding variable_cmp variable_new strcasecmp
variable_cmp-variable_new name value =
    ap (compare (lower name)) (lower_idem name) ∙ compare_refl (lower name)

-- It is found under no other.
pub variable_cmp-variable_new_other :
    (other name : Text) (value : Option Text)
    → strcase_eq other name ≡ false
    → variable_cmp other (variable_new name value) ≢ eq
unfolding variable_cmp variable_new strcase_eq
variable_cmp-variable_new_other other name value h e =
    let k = strcasecmp-strcase_eq other (lower name) e in
    let same = ap (text_eq (lower other)) (lower_idem name) in ground (arith, k, h, same)
