-- ===== src/Tree/Free.antt =====
-- What `x_tree_free_with` of src/x_tree.c hands to its callback.
use mathlib.Core.List.{Perm, perm_middle}
use mathlib.Core.List.Perm
use sighttpd.Prelude.{
  ℕ, suc, zero, ◌≤◌, Option, some, List, [], ◌∷◌, ◌++◌, ◌≡◌, refl, ◌∙◌, ap, sym, arith, length,
  append_assoc, length-append, subst,
}
use sighttpd.Tree.{Tree, leaf, node, inorder, next_leaf, free_with}

module _ {ℓ} {A : Type ℓ} where
  -- The datum `y` taken out of the data of a tree.
  abbrev pub IsOut : Tree A → Option (A × Tree A) → Type ℓ
  IsOut t o =
      (y : A) × (s : Tree A) × (before after : List A) × (o ≡ some (y, s))
      × (inorder t ≡ before ++ y ∷ after)
      × (inorder s ≡ before ++ after)

  abbrev pub HasOut : Tree A → Type ℓ
  HasOut leaf = Unit
  HasOut (node l y r) = IsOut (node l y r) (next_leaf (node l y r))

  next_leaf-HasOut : (t : Tree A) → HasOut t
  unfolding next_leaf inorder
  next_leaf-HasOut leaf = tt
  next_leaf-HasOut (node leaf y leaf) = (y, leaf, [], [], refl, refl, refl)
  next_leaf-HasOut (node leaf y (node a z b)) =
      let (x, s, before, after, e, i, j) = next_leaf-HasOut (node a z b) in
      (x, node leaf y s, y ∷ before, after, rw e refl, ap (λ t. y ∷ t) i, ap (λ t. y ∷ t) j)
  next_leaf-HasOut (node (node a z b) y r) =
      let (x, s, before, after, e, i, j) = next_leaf-HasOut (node a z b) in
      (
        x,
        node s y r,
        before,
        after ++ y ∷ inorder r,
        rw e refl,
        ap (λ t. t ++ y ∷ inorder r) i ∙ append_assoc before (x ∷ after) (y ∷ inorder r),
        ap (λ t. t ++ y ∷ inorder r) j ∙ append_assoc before after (y ∷ inorder r),
      )

  free_with_leaf : (fuel : ℕ) → free_with {A = A} (suc fuel) leaf ≡ ([], leaf)
  unfolding free_with next_leaf
  free_with_leaf fuel = refl

  taken :
      (x : A) (freed : List A) {whole : List A} (before after : List A)
      → whole ≡ before ++ x ∷ after
      → Perm freed (before ++ after)
      → Perm (x ∷ freed) whole
  taken x freed before after i p =
      subst (λ u. Perm (x ∷ freed) u) (sym i)
        (Perm.trans (Perm.cons x p) (Perm.symm (perm_middle before after)))

  -- With as many rounds as the tree has data, the loop of `x_tree_free_with` ends with every node freed,
  -- and its callback has been given each datum as often as it is in the tree.
  pub free_with-Perm :
      (fuel : ℕ) (t : Tree A)
      → length (inorder t) ≤ fuel
      → ((free_with fuel t).1 ≡ leaf) × Perm (free_with fuel t).0 (inorder t)
  unfolding free_with inorder
  free_with-Perm zero leaf h = (refl, Perm.refl [])
  free_with-Perm zero (node l y r) h =
      absurd (omega (arith, length-append (inorder l) (y ∷ inorder r)))
  free_with-Perm (suc fuel) leaf h = rw (free_with_leaf fuel) (refl, Perm.refl [])
  free_with-Perm (suc fuel) (node l y r) h =
      let (x, s, before, after, e, i, j) = next_leaf-HasOut (node l y r) in
      let rest = free_with-Perm fuel s (
        omega (
          arith,
          ap length i,
          ap length j,
          length-append before (x ∷ after),
          length-append before after,
        )) in
      rw (e, free_with)
        (rest.0, taken x _ before after i (subst (λ u. Perm (free_with fuel s).0 u) j rest.1))
