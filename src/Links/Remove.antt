-- ===== src/Links/Remove.antt =====
-- `list_remove` of src/list.c on a chain.
use sighttpd.Prelude.{
  ℕ, Option, none, some, List, [], ◌∷◌, ◌++◌, ◌≡◌, refl, sym, ap, ◌∙◌, if◌then◌else◌, ==_ne,
  ==_refl,
}
use sighttpd.Links.{Store, same, set_next_if, set_prev_if, list_remove}
use sighttpd.Links.Chain.{
  Entry, first, last, Chain, IsNew, IsDistinct, IsApart, IsList, KeepsOthers, Chain-frame,
  frame_apart, set_next_if-Chain, set_prev_if-Chain, Chain-append, Chain-split,
}
use sighttpd.Links.Apart.{
  IsNew-split, IsDistinct-split, IsDistinct-append, IsApart-sym, IsApart-uncons,
}

-- Two chains, the first one's end and the second one's start linked with one another by
-- the assignments that `list_remove` and `list_join` make.
module _ (xs ys : List Entry) (s : Store) (next prev : Option ℕ) (dx : IsDistinct xs)
    (dy : IsDistinct ys) (apart : IsApart xs ys) (cx : Chain s none xs next)
    (cy : Chain s prev ys none) where
  pub link-Chain :
      (s' : Store) × (set_next_if (last none xs) (first ys none) s ≡ some s')
      × (s2 : Store) × (set_prev_if (first ys none) (last none xs) s' ≡ some s2)
      × Chain s2 none (xs ++ ys) none
      × KeepsOthers xs s s'
      × KeepsOthers ys s' s2
  link-Chain =
      let (s', r, c, keeps) = set_next_if-Chain xs s next (first ys none) dx cx in
      let apart' = IsApart-sym xs ys apart in
      let cy' = Chain-frame s s' prev ys none (frame_apart xs ys s s' keeps apart') cy in
      let (s2, r2, c2, keeps2) = set_prev_if-Chain ys s' prev (last none xs) dy cy' in
      let cx' =
        Chain-frame s' s2 none xs (first ys none) (frame_apart ys xs s' s2 keeps2 apart) c in
      (s', r, s2, r2, Chain-append xs ys s2 none none cx' c2, keeps, keeps2)

-- The list starts where the list without the node starts.
new_start :
    (z d : ℕ) (ys zs : List Entry)
    → IsNew z ys
    → (if same (some z) (first (ys ++ (z, d) ∷ zs) none)
        then first zs none
        else first (ys ++ (z, d) ∷ zs) none)
      ≡ first (ys ++ zs) none
unfolding same
new_start z d [] zs h = rw (==_refl z) refl
new_start z d ((a, e) ∷ ys) zs (h, f) = rw (==_ne z a (λ k. h (sym k))) refl

-- Where the node is in the list, wherever it is, `list_remove` gives the list of the others in their
-- order, linked in both directions, and changes no node but these.
pub list_remove_lem :
    (ys zs : List Entry) (z d : ℕ) (s : Store) (list : Option ℕ)
    → IsList s list (ys ++ (z, d) ∷ zs)
    → (s' : Store) × (list_remove list (some z) s ≡ some (first (ys ++ zs) none, s'))
      × IsList s' (first (ys ++ zs) none) (ys ++ zs)
      × KeepsOthers (ys ++ zs) s s'
unfolding list_remove
list_remove_lem ys zs z d s list l =
    let (dys, (kz, dzs), apart) = IsDistinct-split ys ((z, d) ∷ zs) l.distinct in
    let (nz, apart') = IsApart-uncons (z, d) zs ys apart in
    let (cys, (hz, czs)) = Chain-split ys ((z, d) ∷ zs) s none none l.linked in
    let (s', r, s2, r2, c, keeps, keeps2) =
      link-Chain ys zs s (some z) (some z) dys dzs apart' cys czs in
    let h' = keeps z nz ∙ hz in
    let h2 = keeps2 z kz ∙ h' in
    (
      s2,
      rw (hz, r, h', r2, h2, l.starts) (ap (λ p. some (p, s2)) (new_start z d ys zs nz)),
      record { starts = refl; linked = c; distinct = IsDistinct-append ys zs dys dzs apart' },
      λ a f. let (g, k) = IsNew-split a ys zs f in keeps2 a k ∙ keeps a g,
    )
