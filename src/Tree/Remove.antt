-- ===== src/Tree/Remove.antt =====
-- What `x_tree_remove` of src/x_tree.c does to the data of a tree.
use sighttpd.Prelude.{
  none, some, List, [], ◌∷◌, ◌++◌, ◌≡◌, refl, ◌∙◌, sym, ◌⊎◌, inl, inr, append_assoc, append-nil,
}
use sighttpd.Tree.{Order, Tree, leaf, node, find, attach_last, replacement, remove, inorder}
use sighttpd.Tree.Search.{Order-cases}

module _ {ℓ} {A : Type ℓ} where
  inorder-attach_last : (l r : Tree A) → inorder (attach_last l r) ≡ inorder l ++ inorder r
  unfolding inorder attach_last
  inorder-attach_last leaf r = refl
  inorder-attach_last (node a y leaf) r =
      sym (append_assoc (inorder a) (y ∷ []) (inorder r)) ∙ simp append_assoc
  inorder-attach_last (node a y (node b z c)) r =
      simp (inorder-attach_last (node b z c) r, append_assoc)

  inorder-replacement : (l r : Tree A) → inorder (replacement l r) ≡ inorder l ++ inorder r
  unfolding inorder replacement
  inorder-replacement leaf leaf = refl
  inorder-replacement leaf (node a y b) = refl
  inorder-replacement (node a y b) leaf = sym (append-nil (inorder (node a y b)))
  inorder-replacement (node a y b) (node c z d) = inorder-attach_last (node a y b) (node c z d)

  -- The data of `t` are those of `s` with `y` put in at one place.
  pub Without : A → Tree A → Tree A → Type ℓ
  Without y t s =
      (before after : List A) × (inorder t ≡ before ++ y ∷ after) × (inorder s ≡ before ++ after)

  -- `x_tree_remove` takes out exactly the datum that `x_tree_find` finds, and leaves the others in their
  -- order from left to right; it returns NULL exactly where nothing is found.
  pub remove_lem :
      (p : A → Order) (t : Tree A)
      → ((find p t ≡ none) × (remove p t ≡ none))
        ⊎ ((y : A) × (s : Tree A) × (find p t ≡ some y) × (remove p t ≡ some s) × Without y t s)
  unfolding find remove Without inorder
  remove_lem p leaf = inl (refl, refl)
  remove_lem p (node l y r) = elim (Order-cases (p y)) [
    | inl e ↦
        rw (e, find, remove)
          (elim (remove_lem p l) [
            | inl (f, g) ↦ inl (f, rw g)
            | inr (z, s, f, g, (before, after, b, a)) ↦ inr (
              z,
              node s y r,
              f,
              rw g,
              (
                before,
                after ++ y ∷ inorder r,
                rw b (append_assoc before (z ∷ after) (y ∷ inorder r)),
                rw a (append_assoc before after (y ∷ inorder r)),
              ),
            )
          ])
    | inr (inl e) ↦
        rw (e, find, remove)
          (inr
            (y, replacement l r, refl, refl, (inorder l, inorder r, refl, inorder-replacement l r)))
    | inr (inr e) ↦
        rw (e, find, remove)
          (elim (remove_lem p r) [
            | inl (f, g) ↦ inl (f, rw g)
            | inr (z, s, f, g, (before, after, b, a)) ↦ inr (
              z,
              node l y s,
              f,
              rw g,
              (
                inorder l ++ y ∷ before,
                after,
                rw b (sym (append_assoc (inorder l) (y ∷ before) (z ∷ after))),
                rw a (sym (append_assoc (inorder l) (y ∷ before) after)),
              ),
            )
          ])
  ]
