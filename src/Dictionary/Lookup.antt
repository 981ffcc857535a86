-- ===== src/Dictionary/Lookup.antt =====
-- What `dictionary_lookup` of src/dictionary.c answers after `dictionary_insert`.
use sighttpd.Prelude.{
  ℕ, Text, true, false, Option, none, some, ◌≡◌, ◌≢◌, refl, ap, ◌∙◌, sym, arith, ◌⊎◌, inl, inr,
  ◌==◌, ==_refl, ==_iff, lower, strcase_eq, text_eq_sound, Bool-cases, Option-cases, ◌%◌,
  strcase_eq_congr_right,
}
use sighttpd.Tree.{lt, eq, gt, Tree, leaf, node, find, insert}
use sighttpd.Tree.Search.{
  Agree, find-insert_other, find-insert_self, find-modify_self, find-modify_other,
}
use sighttpd.Dictionary.{
  Variable, Dictionary, variable_new, variable_cmp, strcasecmp, compare, set_value, value_of,
  set_bucket, insert_bucket, dictionary_hash, dictionary_lookup, dictionary_insert,
}
use sighttpd.Dictionary.Keys.{
  strcasecmp-strcase_eq, variable_cmp-variable_new, variable_cmp-variable_new_other,
}

-- The tree has the name, or every name in it compares with `image` as it does with the name.
abbrev pub IsPlaced : (image name : Text) → Tree Variable → Type 0
IsPlaced image name tree =
    ((y : Variable) × (find (variable_cmp name) tree ≡ some y))
    ⊎ ((find (variable_cmp name) tree ≡ none)
        × Agree (variable_cmp name) (λ new. variable_cmp image) (variable_new name none) tree)

variable_cmp-set_value :
    (name : Text) (value : Option Text) (z : Variable)
    → variable_cmp name (set_value value z) ≡ variable_cmp name z
unfolding variable_cmp set_value
variable_cmp-set_value name value z = refl

Agree-value :
    (image name : Text) (value : Option Text) (tree : Tree Variable)
    → Agree (variable_cmp name) (λ new. variable_cmp image) (variable_new name none) tree
    → Agree (variable_cmp name) (λ new. variable_cmp image) (variable_new name value) tree
Agree-value image name value leaf a = a
Agree-value image name value (node l y r) (h, al, ar) =
    (h, Agree-value image name value l al, Agree-value image name value r ar)

value-insert_bucket :
    (image name : Text) (value : Option Text) (tree : Tree Variable)
    → IsPlaced image name tree
    → value_of (
        find
          (variable_cmp name)
          (insert_bucket image name value (find (variable_cmp name) tree) tree))
      ≡ value
unfolding insert_bucket value_of set_value variable_new
value-insert_bucket image name value tree (inl (y, h)) = rw (
  h,
  find-modify_self (variable_cmp name) (set_value value) tree y (variable_cmp-set_value name value)
      h,
)
value-insert_bucket image name value tree (inr (h, a)) = rw (
  h,
  find-insert_self (variable_cmp name) (λ new. variable_cmp image) (variable_new name value) tree
      (variable_cmp-variable_new name value) h (Agree-value image name value tree a),
)

other_cmp :
    (other name : Text) (z : Variable)
    → strcase_eq other name ≡ false
    → variable_cmp name z ≡ eq
    → variable_cmp other z ≢ eq
unfolding variable_cmp
other_cmp other name z h k e =
    let a = strcasecmp-strcase_eq name z.name k in
    let b = strcasecmp-strcase_eq other z.name e in
    let c = strcase_eq_congr_right name z.name other a in ground (arith, a, b, c, h)

find-insert_bucket :
    (image other name : Text) (value : Option Text) (tree : Tree Variable)
    → strcase_eq other name ≡ false
    → find
        (variable_cmp other)
        (insert_bucket image name value (find (variable_cmp name) tree) tree)
      ≡ find (variable_cmp other) tree
unfolding insert_bucket
find-insert_bucket image other name value tree h =
    elim (Option-cases (find (variable_cmp name) tree)) [
      | inl e ↦
          rw (e, insert_bucket)
            (find-insert_other (variable_cmp other) (λ new. variable_cmp image)
              (variable_new name value) tree (variable_cmp-variable_new_other other name value h))
      | inr (y, e) ↦
          rw (e, insert_bucket)
            (find-modify_other (variable_cmp other) (variable_cmp name) (set_value value) tree
              (variable_cmp-set_value other value) (λ z. other_cmp other name z h))
    ]

lost_bucket :
    (image name : Text) (value : Option Text) (y : Variable)
    → variable_cmp name y ≡ gt
    → variable_cmp image y ≡ lt
    → value_of (
        find (variable_cmp name) (
          insert_bucket image name value
            (find (variable_cmp name) (node leaf y leaf))
            (node leaf y leaf)))
      ≡ none
unfolding find insert insert_bucket value_of
lost_bucket image name value y g l = rw (g, insert_bucket, l, find, g)

module _ (jenkins_hash : Text → ℕ) (table : Dictionary) where
  -- Names that differ in case only are the same name.
  pub dictionary_lookup_case :
      (a b : Text)
      → strcase_eq a b ≡ true
      → dictionary_lookup jenkins_hash table a ≡ dictionary_lookup jenkins_hash table b
  unfolding dictionary_lookup dictionary_hash variable_cmp strcasecmp strcase_eq
  dictionary_lookup_case a b h =
      ap (λ l. value_of (find (λ v. compare l (lower v.name)) (table (jenkins_hash l % 16))))
        (text_eq_sound (lower a) (lower b) h)

module _ (jenkins_hash : Text → ℕ) (image : Text) (table : Dictionary) where
  -- A value inserted is looked up under its name, if the name was in its tree before, or if the
  -- names in the tree compare with `image`, the bytes at the new variable, as they do with the name.
  pub dictionary_lookup-dictionary_insert :
      (name : Text) (value : Option Text)
      → IsPlaced image name (table (dictionary_hash jenkins_hash name))
      → dictionary_lookup jenkins_hash (dictionary_insert jenkins_hash image table name value) name
        ≡ value
  unfolding dictionary_lookup dictionary_insert set_bucket
  dictionary_lookup-dictionary_insert name value placed =
      rw (==_refl (dictionary_hash jenkins_hash name))
        (value-insert_bucket image name value (table (dictionary_hash jenkins_hash name)) placed)

  -- Whatever bytes stand at the new variable, an insertion changes what is looked up under no other
  -- name: neither a hash that is the same nor the order in the tree makes it lose another value.
  pub dictionary_lookup-dictionary_insert_other :
      (other name : Text) (value : Option Text)
      → strcase_eq other name ≡ false
      → dictionary_lookup jenkins_hash (dictionary_insert jenkins_hash image table name value) other
        ≡ dictionary_lookup jenkins_hash table other
  unfolding dictionary_lookup dictionary_insert set_bucket
  dictionary_lookup-dictionary_insert_other other name value h =
      elim (Bool-cases (dictionary_hash jenkins_hash other == dictionary_hash jenkins_hash name)) [
        | inl e ↦
            let k =
              (==_iff (dictionary_hash jenkins_hash other) (dictionary_hash jenkins_hash name)).0
                e in
            rw e (
              ap value_of (
                find-insert_bucket image other name value
                  (table (dictionary_hash jenkins_hash name)) h
                ∙ ap (λ i. find (variable_cmp other) (table i)) (sym k)))
        | inr e ↦ rw e
      ]

  -- A value inserted is lost where the tree of its hash has one name alone, after which its own name
  -- comes, while the bytes at the new variable come before it.
  pub dictionary_lookup-dictionary_insert_lost :
      (name : Text) (value : Option Text) (y : Variable)
      → table (dictionary_hash jenkins_hash name) ≡ node leaf y leaf
      → variable_cmp name y ≡ gt
      → variable_cmp image y ≡ lt
      → dictionary_lookup jenkins_hash (dictionary_insert jenkins_hash image table name value) name
        ≡ none
  unfolding dictionary_lookup dictionary_insert set_bucket
  dictionary_lookup-dictionary_insert_lost name value y t g l =
      rw (==_refl (dictionary_hash jenkins_hash name), t) (lost_bucket image name value y g l)
