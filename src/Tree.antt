-- ===== src/Tree.antt =====
-- src/x_tree.c: binary search trees over a client's `cmp`. A tree is its nodes without their parent
-- links; the pointer to a node that `x_tree_find` returns is the datum of the node, and what a
-- client writes through it is `modify`.
pub mod Search
pub mod Remove
pub mod Free
pub mod Walk
mod Tests
use sighttpd.Prelude.{ℕ, zero, suc, Option, none, some, List, [], ◌∷◌, ◌++◌}

-- The sign of what `cmp` returns.
pub data Order : Type 0 where
  lt eq gt : Order

pub data Tree {ℓ} (A : Type ℓ) : Type ℓ where
  leaf : Tree A
  node : Tree A → A → Tree A → Tree A

module _ {ℓ} {A : Type ℓ} where
  -- `x_tree_insert`: down to a free place, to the left where `cmp` is negative.
  unfoldable pub insert : (A → A → Order) → A → Tree A → Tree A
  insert cmp x leaf = node leaf x leaf
  insert cmp x (node l y r) = elim (cmp x y) [
    | lt ↦ node (insert cmp x l) y r
    | eq ↦ node l y (insert cmp x r)
    | gt ↦ node l y (insert cmp x r)
  ]

  -- `x_tree_find`, with the datum that is looked for given as the first argument of `cmp`.
  unfoldable pub find : (A → Order) → Tree A → Option A
  find cmp leaf = none
  find cmp (node l y r) = elim (cmp y) [ lt ↦ find cmp l | eq ↦ some y | gt ↦ find cmp r ]

  -- A write to the datum of the node found.
  unfoldable pub modify : (A → Order) → (A → A) → Tree A → Tree A
  modify cmp f leaf = leaf
  modify cmp f (node l y r) = elim (cmp y) [
    | lt ↦ node (modify cmp f l) y r
    | eq ↦ node l (f y) r
    | gt ↦ node l y (modify cmp f r)
  ]

  -- `for (lx = l; lx->right; lx = lx->right);` and `ATTACH_RIGHT (lx, r)`.
  unfoldable pub attach_last : Tree A → Tree A → Tree A
  attach_last leaf r = r
  attach_last (node a y leaf) r = node a y r
  attach_last (node a y (node b z c)) r = node a y (attach_last (node b z c) r)

  -- What `x_tree_remove` puts in the place of a node with the children `l` and `r`.
  unfoldable pub replacement : Tree A → Tree A → Tree A
  unfolding attach_last
  replacement leaf leaf = leaf
  replacement leaf (node a y b) = node a y b
  replacement (node a y b) leaf = node a y b
  replacement (node a y b) (node c z d) = attach_last (node a y b) (node c z d)

  -- The branches of `x_tree_remove`: the new tree, or `none` for NULL where nothing is found.
  unfoldable pub remove : (A → Order) → Tree A → Option (Tree A)
  unfolding replacement
  remove cmp leaf = none
  remove cmp (node l y r) = elim (cmp y) [
    | lt ↦ (elim (remove cmp l) [ none ↦ none | some l' ↦ some (node l' y r) ])
    | eq ↦ some (replacement l r)
    | gt ↦ (elim (remove cmp r) [ none ↦ none | some r' ↦ some (node l y r') ])
  ]

  -- `x_tree_first` and `x_tree_last`
  unfoldable pub first : Tree A → Option A
  first leaf = none
  first (node leaf y r) = some y
  first (node (node a z b) y r) = first (node a z b)

  unfoldable pub last : Tree A → Option A
  last leaf = none
  last (node l y leaf) = some y
  last (node l y (node a z b)) = last (node a z b)

  -- `x_next_leaf` from a node: its datum, and the tree after the leaf is unlinked from its parent.
  unfoldable pub next_leaf : Tree A → Option (A × Tree A)
  next_leaf leaf = none
  next_leaf (node leaf y leaf) = some (y, leaf)
  next_leaf (node leaf y (node a z b)) = elim (next_leaf (node a z b)) [
    | none ↦ none
    | some q ↦ some (q.0, node leaf y q.1)
  ]
  next_leaf (node (node a z b) y r) = elim (next_leaf (node a z b)) [
    | none ↦ none
    | some q ↦ some (q.0, node q.1 y r)
  ]

  -- The loop of `x_tree_free_with`: the data that its callback is given, and the tree that is left when
  -- the fuel is used up. A search goes on from the parent of the leaf before it, where a search
  -- from the root comes by: no node above it is a leaf.
  unfoldable pub free_with : ℕ → Tree A → List A × Tree A
  free_with zero t = ([], t)
  free_with (suc fuel) t = elim (next_leaf t) [
    | none ↦ ([], t)
    | some q ↦ (q.0 ∷ (free_with fuel q.1).0, (free_with fuel q.1).1)
  ]

  -- The data from left to right.
  unfoldable pub inorder : Tree A → List A
  inorder leaf = []
  inorder (node l y r) = inorder l ++ y ∷ inorder r
