-- ===== src/Tree/Tests.antt =====
-- Runs of src/x_tree.c on a tree of numbers.
use sighttpd.Tree.Walk.{
  Node, from_left, from_right, parent_of_left, next_by, x_node_next, behind, before, whole, head,
  stops, x_node_next_lem,
}
use sighttpd.Prelude.{
  [], ◌∷◌, ◌++◌, length, ◌≤◌, ℕ, none, some, ◌≡◌, ◌≢◌, refl, arith, ◌⊎◌, ltb, ◌==◌, if◌then◌else◌,
}
use mathlib.Core.List.{Perm}
use sighttpd.Tree.Free.{free_with-Perm}
use sighttpd.Tree.{inorder, free_with, Order, lt, eq, gt, Tree, leaf, node, find, remove}
use sighttpd.Tree.Remove.{Without, remove_lem}

abbrev by_size : ℕ → ℕ → Order
by_size x y = if x == y then eq else if ltb x y then lt else gt

-- 5 with 3 to its left and 8 to its right.
abbrev three : Tree ℕ
three = node (node leaf 3 leaf) 5 (node leaf 8 leaf)

remove_lem_example :
    ((find (by_size 5) three ≡ none) × (remove (by_size 5) three ≡ none))
    ⊎ ((y : ℕ) × (s : Tree ℕ) × (find (by_size 5) three ≡ some y)
        × (remove (by_size 5) three ≡ some s)
        × Without y three s)
remove_lem_example = remove_lem (by_size 5) three

differs : by_size 8 4 ≢ eq
differs e = ground arith

not_in : find (by_size 4) three ≡ none
unfolding find
not_in = refl

three_data : length (inorder three) ≤ 3
unfolding inorder
three_data = omega arith

free_with-Perm_example : ((free_with 3 three).1 ≡ leaf) × Perm (free_with 3 three).0 (inorder three)
free_with-Perm_example = free_with-Perm 3 three three_data

-- 3 is the right child of 2, which is the left child of 4.
abbrev third : Node ℕ
third = record {
  left = leaf;
  datum = 3;
  right = leaf;
  up = from_right leaf 2 ∷ from_left 4 leaf ∷ [];
}

x_node_next_lem_example :
    (inorder (whole (node third.left third.datum third.right) third.up)
      ≡ (before third.up ++ inorder third.left)
        ++ (third.datum ∷ (inorder third.right ++ behind third.up)))
    × (x_node_next third ≡ (
        if stops third.right third.up then none else head (inorder third.right ++ behind third.up)))
x_node_next_lem_example = x_node_next_lem third

-- 4 comes next, and is not found.
third_lost : x_node_next third ≡ none
unfolding x_node_next next_by parent_of_left
third_lost = refl

third_behind : behind third.up ≡ 4 ∷ []
unfolding behind inorder
third_behind = refl
