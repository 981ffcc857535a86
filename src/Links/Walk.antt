-- ===== src/Links/Walk.antt =====
-- The loops of src/list.c along a chain.
use sighttpd.Prelude.{
  ℕ, suc, zero, ◌+◌, ◌≤◌, Bool, true, false, Option, none, some, List, [], ◌∷◌, ◌≡◌, refl, sym, ap,
  ◌∙◌, arith, map, length, if◌then◌else◌, ◌==◌, All,
}
use sighttpd.Links.{Store, put, is_null, list_tail, list_find, list_length, list_free_with}
use sighttpd.Links.Chain.{
  Entry, first, last, Chain, IsNew, IsDistinct, IsList, Chain-frame, frame_put, put_same, put_other,
}

-- `list_tail` finds the last node, with as much fuel as there are nodes.
pub list_tail-Chain :
    (xs : List Entry) (s : Store) (prev : Option ℕ) (fuel : ℕ)
    → length xs ≤ fuel
    → Chain s prev xs none
    → list_tail fuel (first xs none) s ≡ some (last none xs)
unfolding list_tail is_null
list_tail-Chain [] s prev fuel h c = refl
list_tail-Chain (x ∷ xs) s prev zero h c = absurd (omega arith)
list_tail-Chain ((a, d) ∷ []) s prev (suc fuel) h (e, c) = rw e refl
list_tail-Chain ((a, d) ∷ (b, f) ∷ xs) s prev (suc fuel) h (e, c) =
    rw (e, list_tail-Chain ((b, f) ∷ xs) s (some a) fuel (omega arith) c) refl

add_one : (n : ℕ) → n + 1 ≡ suc n
add_one n = omega arith

pub length-Chain :
    (xs : List Entry) (s : Store) (prev : Option ℕ) (fuel : ℕ)
    → length xs ≤ fuel
    → Chain s prev xs none
    → list_length fuel (first xs none) s ≡ some (length xs)
unfolding list_length
length-Chain [] s prev fuel h c = refl
length-Chain (x ∷ xs) s prev zero h c = absurd (omega arith)
length-Chain ((a, d) ∷ xs) s prev (suc fuel) h (e, c) =
    rw (e, length-Chain xs s (some a) fuel (omega arith) c) (ap (λ n. some n) (add_one (length xs)))

-- The first node with a datum.
abbrev pub find : ℕ → List Entry → Option ℕ
find datum [] = none
find datum ((a, d) ∷ xs) = if d == datum then some a else find datum xs

if_some :
    {A : Type 0} (b : Bool) (x y : A) → (if b then some x else some y) ≡ some (if b then x else y)
if_some true x y = refl
if_some false x y = refl

pub find-Chain :
    (datum : ℕ) (xs : List Entry) (s : Store) (prev : Option ℕ) (fuel : ℕ)
    → length xs ≤ fuel
    → Chain s prev xs none
    → list_find fuel (first xs none) datum s ≡ some (find datum xs)
unfolding list_find
find-Chain datum [] s prev fuel h c = refl
find-Chain datum (x ∷ xs) s prev zero h c = absurd (omega arith)
find-Chain datum ((a, d) ∷ xs) s prev (suc fuel) h (e, c) =
    rw (e, find-Chain datum xs s (some a) fuel (omega arith) c)
      (if_some (d == datum) (some a) (find datum xs))

free_with-Chain :
    (xs : List Entry) (s : Store) (prev : Option ℕ) (fuel : ℕ)
    → length xs ≤ fuel
    → IsDistinct xs
    → Chain s prev xs none
    → (s' : Store) × (list_free_with fuel (first xs none) s ≡ some (map (λ x. x.1) xs, s'))
      × All (λ (x : Entry). s' x.0 ≡ none) xs
      × ((a : ℕ) → IsNew a xs → s' a ≡ s a)
unfolding list_free_with
free_with-Chain [] s prev fuel h f c = (s, refl, tt, λ a k. refl)
free_with-Chain (x ∷ xs) s prev zero h f c = absurd (omega arith)
free_with-Chain ((a, d) ∷ xs) s prev (suc fuel) h (k, f) (e, c) =
    let c' = Chain-frame s (put a none s) (some a) xs none (frame_put a none xs s k) c in
    let (s', r, gone, same) = free_with-Chain xs (put a none s) (some a) fuel (omega arith) f c' in
    (
      s',
      rw (e, r) refl,
      (same a k ∙ put_same a none s, gone),
      λ b m. same b m.1 ∙ put_other a b none s (λ q. m.0 (sym q)),
    )

-- On a list of nodes, with as much fuel as there are nodes, `list_free_with` calls its function with
-- every datum once, in the order of the list, and gives back every node of the list and no other.
pub list_free_with_lem :
    (xs : List Entry) (s : Store) (list : Option ℕ) (fuel : ℕ)
    → length xs ≤ fuel
    → IsList s list xs
    → (s' : Store) × (list_free_with fuel list s ≡ some (map (λ x. x.1) xs, s'))
      × All (λ (x : Entry). s' x.0 ≡ none) xs
      × ((a : ℕ) → IsNew a xs → s' a ≡ s a)
list_free_with_lem xs s list fuel h l =
    let (s', r, gone, same) = free_with-Chain xs s none fuel h l.distinct l.linked in
    (s', ap (λ p. list_free_with fuel p s) l.starts ∙ r, gone, same)
