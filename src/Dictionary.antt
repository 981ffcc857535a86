-- ===== src/Dictionary.antt =====
-- src/dictionary.c: the variables of a configuration, in sixteen trees of src/x_tree.c.
pub mod Keys
pub mod Lookup
mod Tests
use sighttpd.Prelude.{ℕ, ◌%◌, Text, Option, none, some, [], ◌∷◌, if◌then◌else◌, ◌==◌, ltb, lower}
use sighttpd.Tree.{Order, lt, eq, gt, Tree, leaf}
use sighttpd.Tree

-- `Variable`; the value `none` is a null pointer.
pub record Variable : Type 0 where
  pub name : Text
  pub value : Option Text

-- `variable_new`
unfoldable pub variable_new : Text → Option Text → Variable
variable_new name value = record { name = lower name; value = value }

-- The sign of the difference of the first bytes that differ, the NUL included.
unfoldable pub compare : Text → Text → Order
compare [] [] = eq
compare [] (d ∷ b) = lt
compare (c ∷ a) [] = gt
compare (c ∷ a) (d ∷ b) = if c == d then compare a b else if ltb c d then lt else gt

-- The sign of `strcasecmp(a, b)`
unfoldable pub strcasecmp : Text → Text → Order
strcasecmp a b = compare (lower a) (lower b)

-- `variable_cmp`, for pointers that are not null
unfoldable pub variable_cmp : Text → Variable → Order
variable_cmp s1 v2 = strcasecmp s1 v2.name

-- `Dictionary`: the tree of each bucket.
abbrev pub Dictionary : Type 0
Dictionary = ℕ → Tree Variable

-- `dictionary_new`
unfoldable pub dictionary_new : Dictionary
dictionary_new h = leaf

-- The write through the node that a search has found.
unfoldable pub set_value : Option Text → Variable → Variable
set_value value variable = record variable { value = value }

-- `variable->value` of the node found.
unfoldable pub value_of : Option Variable → Option Text
value_of none = none
value_of (some variable) = variable.value

-- `table->buckets[h] = tree`
unfoldable pub set_bucket : Dictionary → ℕ → Tree Variable → Dictionary
set_bucket table h tree i = if i == h then tree else table i

-- The new tree of the bucket. `x_tree_insert` gives `variable_cmp` the new `Variable` itself where a
-- name is expected: `image` is what stands in the memory at its address, read as a C string.
unfoldable pub insert_bucket :
    (image name : Text) → Option Text → Option Variable → Tree Variable → Tree Variable
insert_bucket image name value none tree =
    Tree.insert (λ new. variable_cmp image) (variable_new name value) tree
insert_bucket image name value (some found) tree =
    Tree.modify (variable_cmp name) (set_value value) tree

module _ (jenkins_hash : Text → ℕ) where
  -- `dictionary_hash`; `hashmask (BUCKETS_MASK)` is 15.
  unfoldable pub dictionary_hash : Text → ℕ
  dictionary_hash name = jenkins_hash (lower name) % 16

  -- `dictionary_lookup`
  unfoldable pub dictionary_lookup : Dictionary → Text → Option Text
  dictionary_lookup table name =
      value_of (Tree.find (variable_cmp name) (table (dictionary_hash name)))

  -- `dictionary_insert`
  unfoldable pub dictionary_insert : (image : Text) → Dictionary → Text → Option Text → Dictionary
  dictionary_insert image table name value =
      let h = dictionary_hash name in
      let tree = table h in
      set_bucket table h (insert_bucket image name value (Tree.find (variable_cmp name) tree) tree)
