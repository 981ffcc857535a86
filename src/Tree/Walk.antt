-- ===== src/Tree/Walk.antt =====
-- The steps of src/x_tree.c from a node to the one before and the one behind it, which follow the link to its
-- parent. A pointer to a node is the subtrees and the datum of the node, with the way up from it.
use sighttpd.Prelude.{
  Bool, true, false, Option, none, some, List, [], ◌∷◌, ◌++◌, ◌≡◌, refl, ◌∙◌, sym, ap, append_assoc,
  append-nil, ◌≢◌, arith, if◌then◌else◌,
}
use sighttpd.Tree.{Tree, leaf, node, first, last, inorder}

-- One link up: the parent's datum, its other subtree, and on which side of it the node is.
pub data Step {ℓ} (A : Type ℓ) : Type ℓ where
  from_left : (datum : A) (right : Tree A) → Step A
  from_right : (left : Tree A) (datum : A) → Step A

-- `x_node_t *`
pub record Node {ℓ} (A : Type ℓ) : Type ℓ where
  pub left : Tree A
  pub datum : A
  pub right : Tree A
  pub up : List (Step A)

module _ {ℓ} {A : Type ℓ} where
  -- `if (p && (p->left == node)) return p; else return NULL;`, and the same with `right`
  unfoldable pub parent_of_left : List (Step A) → Option A
  parent_of_left [] = none
  parent_of_left (from_left datum right ∷ up) = some datum
  parent_of_left (from_right left datum ∷ up) = none

  unfoldable pub parent_of_right : List (Step A) → Option A
  parent_of_right [] = none
  parent_of_right (from_left datum right ∷ up) = none
  parent_of_right (from_right left datum ∷ up) = some datum

  -- `x_node_next` and `x_node_prev`, by the subtree on that side: the datum of the node that they return.
  unfoldable pub next_by : Tree A → List (Step A) → Option A
  next_by leaf up = parent_of_left up
  next_by (node l y r) up = first (node l y r)

  unfoldable pub prev_by : Tree A → List (Step A) → Option A
  prev_by leaf up = parent_of_right up
  prev_by (node l y r) up = last (node l y r)

  unfoldable pub x_node_next : Node A → Option A
  x_node_next n = next_by n.right n.up

  unfoldable pub x_node_prev : Node A → Option A
  x_node_prev n = prev_by n.left n.up

  -- The data of the tree behind the subtree that the way goes up from, and those before it.
  unfoldable pub behind : List (Step A) → List A
  behind [] = []
  behind (from_left datum right ∷ up) = datum ∷ (inorder right ++ behind up)
  behind (from_right left datum ∷ up) = behind up

  unfoldable pub before : List (Step A) → List A
  before [] = []
  before (from_left datum right ∷ up) = before up
  before (from_right left datum ∷ up) = before up ++ (inorder left ++ (datum ∷ []))

  -- The whole tree of a node.
  unfoldable pub whole : Tree A → List (Step A) → Tree A
  whole t [] = t
  whole t (from_left datum right ∷ up) = whole (node t datum right) up
  whole t (from_right left datum ∷ up) = whole (node left datum t) up

  inorder-whole :
      (t : Tree A) (up : List (Step A))
      → inorder (whole t up) ≡ before up ++ (inorder t ++ behind up)
  unfolding whole before behind inorder
  inorder-whole t [] = sym (append-nil (inorder t))
  inorder-whole t (from_left datum right ∷ up) =
      inorder-whole (node t datum right) up
      ∙ ap (λ s. before up ++ s) (append_assoc (inorder t) (datum ∷ inorder right) (behind up))
  inorder-whole t (from_right left datum ∷ up) =
      inorder-whole (node left datum t) up ∙ simp append_assoc

  abbrev pub head : List A → Option A
  head [] = none
  head (x ∷ xs) = some x

  abbrev pub end : List A → Option A
  end [] = none
  end (x ∷ []) = some x
  end (x ∷ y ∷ xs) = end (y ∷ xs)

  is_leaf : Tree A → Bool
  is_leaf leaf = true
  is_leaf (node l y r) = false

  node≢leaf : (l : Tree A) (y : A) (r : Tree A) → node l y r ≢ leaf
  unfolding is_leaf
  node≢leaf l y r e = absurd (ground (arith, ap is_leaf e))

  head-first : (t : Tree A) (xs : List A) → t ≢ leaf → head (inorder t ++ xs) ≡ first t
  unfolding first inorder
  head-first leaf xs h = absurd (h refl)
  head-first (node leaf y r) xs h = refl
  head-first (node (node a z b) y r) xs h =
      ap head (append_assoc (inorder (node a z b)) (y ∷ inorder r) xs)
      ∙ head-first (node a z b) ((y ∷ inorder r) ++ xs) (node≢leaf a z b)

  -- Whether a node without a subtree on the right is the right child of its parent.
  unfoldable pub stops : Tree A → List (Step A) → Bool
  stops leaf (from_right left datum ∷ up) = true
  stops _ _ = false

  next_by_lem :
      (right : Tree A) (up : List (Step A))
      → next_by right up ≡ (if stops right up then none else head (inorder right ++ behind up))
  unfolding next_by stops parent_of_left behind inorder
  next_by_lem leaf [] = refl
  next_by_lem leaf (from_left datum right ∷ up) = refl
  next_by_lem leaf (from_right left datum ∷ up) = refl
  next_by_lem (node l y r) up = sym (head-first (node l y r) (behind up) (node≢leaf l y r))

  -- The data of the whole tree are those before a node, its own and those behind it, and `x_node_next` returns
  -- the next of them, or NULL where the node is the last; but where the node is the right child of its
  -- parent and has no right child, it returns NULL whatever is behind it.
  pub x_node_next_lem :
      (n : Node A)
      → (inorder (whole (node n.left n.datum n.right) n.up)
          ≡ (before n.up ++ inorder n.left) ++ (n.datum ∷ (inorder n.right ++ behind n.up)))
        × (x_node_next n
            ≡ (if stops n.right n.up then none else head (inorder n.right ++ behind n.up)))
  unfolding x_node_next inorder
  x_node_next_lem n = (
    inorder-whole (node n.left n.datum n.right) n.up ∙ simp append_assoc,
    next_by_lem n.right n.up,
  )

  end-snoc : (xs : List A) (y : A) → end (xs ++ y ∷ []) ≡ some y
  end-snoc [] y = refl
  end-snoc (x ∷ []) y = refl
  end-snoc (x ∷ z ∷ xs) y = end-snoc (z ∷ xs) y

  end-last : (xs : List A) (t : Tree A) → t ≢ leaf → end (xs ++ inorder t) ≡ last t
  unfolding last inorder
  end-last xs leaf h = absurd (h refl)
  end-last xs (node l y leaf) h =
      ap end (sym (append_assoc xs (inorder l) (y ∷ []))) ∙ end-snoc (xs ++ inorder l) y
  end-last xs (node l y (node a z b)) h =
      ap end {x = xs ++ (inorder l ++ y ∷ inorder (node a z b))}
        {y = (xs ++ (inorder l ++ y ∷ [])) ++ inorder (node a z b)} (simp append_assoc)
      ∙ end-last (xs ++ (inorder l ++ y ∷ [])) (node a z b) (node≢leaf a z b)

  -- The same on the other side.
  unfoldable pub stops_before : Tree A → List (Step A) → Bool
  stops_before leaf (from_left datum right ∷ up) = true
  stops_before _ _ = false

  prev_by_lem :
      (left : Tree A) (up : List (Step A))
      → prev_by left up ≡ (if stops_before left up then none else end (before up ++ inorder left))
  unfolding prev_by stops_before parent_of_right before inorder
  prev_by_lem leaf [] = refl
  prev_by_lem leaf (from_left datum right ∷ up) = refl
  prev_by_lem leaf (from_right left datum ∷ up) = sym (
      ap end {x = (before up ++ (inorder left ++ datum ∷ [])) ++ []}
        {y = (before up ++ inorder left) ++ datum ∷ []} (simp (append_assoc, append-nil))
      ∙ end-snoc (before up ++ inorder left) datum)
  prev_by_lem (node l y r) up = sym (end-last (before up) (node l y r) (node≢leaf l y r))

  -- `x_node_prev` returns the datum right before that of the node, or NULL where the node is the first; but
  -- where the node is the left child of its parent and has no left child, it returns NULL whatever is
  -- before it.
  pub x_node_prev_lem :
      (n : Node A)
      → x_node_prev n
        ≡ (if stops_before n.left n.up then none else end (before n.up ++ inorder n.left))
  unfolding x_node_prev
  x_node_prev_lem n = prev_by_lem n.left n.up
