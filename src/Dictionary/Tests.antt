-- ===== src/Dictionary/Tests.antt =====
-- Runs of src/dictionary.c with a hash that puts every name in one tree.
use sighttpd.Prelude.{
  ℕ, Text, none, some, [], ◌∷◌, ◌≡◌, refl, inl, false, true, codes, strcase_eq, lower, tolower,
  text_eq,
}
use sighttpd.Tree.{lt, gt, leaf, node, find}
use sighttpd.Dictionary.{
  Variable, Dictionary, variable_cmp, strcasecmp, compare, dictionary_hash, dictionary_lookup,
  dictionary_insert,
}
use sighttpd.Dictionary.Lookup.{
  IsPlaced, dictionary_lookup-dictionary_insert, dictionary_lookup-dictionary_insert_lost,
}

abbrev one_hash : Text → ℕ
one_hash name = 3

-- `Path` has the value `/a`.
abbrev path_variable : Variable
path_variable = record { name = codes "path"; value = some (codes "/a") }

abbrev with_path : Dictionary
with_path h = node leaf path_variable leaf

-- The name is found, however it is written.
path_IsPlaced :
    IsPlaced (codes "x") (codes "PATH") (with_path (dictionary_hash one_hash (codes "PATH")))
unfolding find variable_cmp strcasecmp compare lower tolower
path_IsPlaced = inl (path_variable, refl)

dictionary_lookup-dictionary_insert_example :
    dictionary_lookup one_hash
      (dictionary_insert one_hash (codes "x") with_path (codes "PATH") (some (codes "/b")))
      (codes "PATH")
    ≡ some (codes "/b")
dictionary_lookup-dictionary_insert_example =
    dictionary_lookup-dictionary_insert one_hash (codes "x") with_path (codes "PATH")
      (some (codes "/b")) path_IsPlaced

differ : strcase_eq (codes "Path") (codes "Text") ≡ false
unfolding strcase_eq lower tolower text_eq
differ = refl

same_name : strcase_eq (codes "Path") (codes "pATH") ≡ true
unfolding strcase_eq lower tolower text_eq
same_name = refl

text_after : variable_cmp (codes "Text") path_variable ≡ gt
unfolding variable_cmp strcasecmp compare lower tolower
text_after = refl

-- A pointer whose first byte is 16.
image_before : variable_cmp (16 ∷ []) path_variable ≡ lt
unfolding variable_cmp strcasecmp compare lower tolower
image_before = refl

dictionary_lookup-dictionary_insert_lost_example :
    dictionary_lookup one_hash
      (dictionary_insert one_hash (16 ∷ []) with_path (codes "Text") (some (codes "t")))
      (codes "Text")
    ≡ none
dictionary_lookup-dictionary_insert_lost_example =
    dictionary_lookup-dictionary_insert_lost one_hash (16 ∷ []) with_path (codes "Text")
      (some (codes "t")) path_variable refl text_after image_before
