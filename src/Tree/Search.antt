-- ===== src/Tree/Search.antt =====
-- What `x_tree_find` of src/x_tree.c finds after an insertion or a write.
use sighttpd.Prelude.{none, some, ◌≡◌, ◌≢◌, refl, arith, ◌⊎◌, inl, inr}
use sighttpd.Tree.{Order, lt, eq, gt, Tree, leaf, node, insert, find, modify}

pub Order-cases : (o : Order) → (o ≡ lt) ⊎ ((o ≡ eq) ⊎ (o ≡ gt))
Order-cases lt = inl refl
Order-cases eq = inr (inl refl)
Order-cases gt = inr (inr refl)

module _ {ℓ} {A : Type ℓ} where
  -- Inserting a datum does not change what a search finds that does not look for it, whatever order the
  -- insertion goes by.
  pub find-insert_other :
      (p : A → Order) (cmp : A → A → Order) (x : A) (t : Tree A)
      → p x ≢ eq
      → find p (insert cmp x t) ≡ find p t
  unfolding find insert
  find-insert_other p cmp x leaf h = ground arith
  find-insert_other p cmp x (node l y r) h =
      ground (arith, find-insert_other p cmp x l h, find-insert_other p cmp x r h)

  -- Every datum of the tree compares with `x` on the insertion as with the search.
  abbrev pub Agree : (A → Order) → (A → A → Order) → A → Tree A → Type ℓ
  Agree p cmp x leaf = Unit
  Agree p cmp x (node l y r) = (p y ≡ cmp x y) × Agree p cmp x l × Agree p cmp x r

  -- A search that goes by the order of the insertion finds the datum inserted, if no other datum stands in
  -- its way.
  pub find-insert_self :
      (p : A → Order) (cmp : A → A → Order) (x : A) (t : Tree A)
      → p x ≡ eq
      → find p t ≡ none
      → Agree p cmp x t
      → find p (insert cmp x t) ≡ some x
  unfolding find insert
  find-insert_self p cmp x leaf h f a = rw h
  find-insert_self p cmp x (node l y r) h f (e, al, ar) =
      ground (arith, e, find-insert_self p cmp x l h, find-insert_self p cmp x r h, al, ar)

  -- A write through the node found is seen by the same search.
  pub find-modify_self :
      (p : A → Order) (f : A → A) (t : Tree A) (y : A)
      → ((z : A) → p (f z) ≡ p z)
      → find p t ≡ some y
      → find p (modify p f t) ≡ some (f y)
  unfolding find modify
  find-modify_self p f leaf y k h = cc
  find-modify_self p f (node l z r) y k h =
      ground (arith, k z, find-modify_self p f l y k, find-modify_self p f r y k)

  -- A search that tells the data apart from the node written finds what it found.
  pub find-modify_other :
      (p q : A → Order) (f : A → A) (t : Tree A)
      → ((z : A) → p (f z) ≡ p z)
      → ((z : A) → q z ≡ eq → p z ≢ eq)
      → find p (modify q f t) ≡ find p t
  unfolding find modify
  find-modify_other p q f leaf k h = refl
  find-modify_other p q f (node l z r) k h =
      ground (arith, k z, h z, find-modify_other p q f l k h, find-modify_other p q f r k h)
