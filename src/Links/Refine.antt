-- ===== src/Links/Refine.antt =====
-- The calls of src/list.c that change a list do what the same calls do on plain lists.
use sighttpd.Prelude.{
  ℕ, ◌≤◌, Option, none, some, List, [], ◌∷◌, ◌++◌, ◌≡◌, refl, sym, ap, ◌∙◌, arith, subst, map,
  length,
}
use sighttpd.Links.{Store, list_append, list_remove, list_find, list_add_after}
use sighttpd.Links.Chain.{Entry, IsList}
use sighttpd.Links.Walk.{find, find-Chain}
use sighttpd.Links.Append.{list_append_lem, list_prepend_lem}
use sighttpd.Links.Remove.{list_remove_lem}
use sighttpd.Links.Insert.{list_add_before_lem, list_add_after_lem}
use sighttpd.Links.Plain.{
  Call, list_call, plain_remove, plain_before, insert_behind, or_front, plain_call, Represents,
  Found, find-Found, datums-append, remove_found, remove_missing, before_found, before_missing,
  behind_found, behind_missing, free_IsNew, before_null, length-datums, prepend, append, remove,
  add_before, add_after, missing, found_at,
}

-- A call with its result.
abbrev Refines : (fuel fresh : ℕ) → Call → Option ℕ → Store → List ℕ → Type 0
Refines fuel fresh call list s ds =
    (list' : Option ℕ) × (s' : Store) × (list_call fuel fresh call list s ≡ some (list', s'))
    × Represents s' list' ds

found_list :
    (e : ℕ) (xs : List Entry) (s : Store) (list : Option ℕ) (fuel : ℕ)
    → length xs ≤ fuel
    → IsList s list xs
    → list_find fuel list e s ≡ some (find e xs)
found_list e xs s list fuel h l =
    ap (λ p. list_find fuel p e s) l.starts ∙ find-Chain e xs s none fuel h l.linked

module _ (fuel fresh : ℕ) (s : Store) (list : Option ℕ) (free : s fresh ≡ none) where
  append-Refines :
      (xs : List Entry) (datum : ℕ)
      → length xs ≤ fuel
      → IsList s list xs
      → (list' : Option ℕ) × (s' : Store) × (list_append fuel fresh list datum s ≡ some (list', s'))
        × Represents s' list' (map (λ x. x.1) (xs ++ (fresh, datum) ∷ []))
  append-Refines xs datum h l =
      let (s', r, m) =
        list_append_lem xs s list fresh datum fuel h l
          (free_IsNew xs s none none fresh free l.linked) in
      (_, s', r, (xs ++ (fresh, datum) ∷ [], m, refl))

  remove-Refines :
      (xs : List Entry) (e : ℕ)
      → length xs ≤ fuel
      → IsList s list xs
      → Found e xs
      → Refines fuel fresh (remove e) list s (plain_remove e (map (λ x. x.1) xs))
  unfolding list_call list_remove
  remove-Refines xs e h l (missing n f) =
      (list, s, rw (found_list e xs s list fuel h l, n) refl, (xs, l, sym (remove_missing xs e f)))
  remove-Refines xs e h l (found_at ys zs z q n f) =
      let (s', r, m, k) = list_remove_lem ys zs z e s list (subst (IsList s list) q l) in
      (
        _,
        s',
        rw (found_list e xs s list fuel h l, n) r,
        (ys ++ zs, m, sym (rw q (remove_found ys zs z e f))),
      )

  before-Refines :
      (xs : List Entry) (e datum : ℕ)
      → length xs ≤ fuel
      → IsList s list xs
      → Found e xs
      → Refines fuel fresh (add_before e datum) list s (plain_before e datum (map (λ x. x.1) xs))
  unfolding list_call
  before-Refines xs e datum h l (missing n f) =
      let (list', s', r, (xs', m, q)) = append-Refines xs datum h l in
      (
        list',
        s',
        rw (found_list e xs s list fuel h l, n) (before_null fuel fresh datum list s ∙ r),
        (xs', m, q ∙ sym (before_missing xs e fresh datum f)),
      )
  before-Refines xs e datum h l (found_at ys zs z q n f) =
      let l' = subst (IsList s list) q l in
      let new = free_IsNew (ys ++ (z, e) ∷ zs) s none none fresh free l'.linked in
      let (s', r, m) = list_add_before_lem ys zs z e s list fresh datum fuel l' new in
      (
        _,
        s',
        rw (found_list e xs s list fuel h l, n) r,
        (ys ++ (fresh, datum) ∷ (z, e) ∷ zs, m, sym (rw q (before_found ys zs z e fresh datum f))),
      )

  after-Refines :
      (xs : List Entry) (e datum : ℕ)
      → length xs ≤ fuel
      → IsList s list xs
      → Found e xs
      → Refines fuel fresh
          (add_after e datum)
          list
          s
          (or_front datum (map (λ x. x.1) xs) (insert_behind e datum (map (λ x. x.1) xs)))
  unfolding list_call list_add_after
  after-Refines xs e datum h l (missing n f) =
      let new = free_IsNew xs s none none fresh free l.linked in
      let (s', r, m) = list_prepend_lem xs s list fresh datum l new in
      (
        _,
        s',
        rw (found_list e xs s list fuel h l, n) r,
        ((fresh, datum) ∷ xs, m, sym (rw (behind_missing xs e datum f) refl)),
      )
  after-Refines xs e datum h l (found_at ys zs z q n f) =
      let l' = subst (IsList s list) q l in
      let new = free_IsNew (ys ++ (z, e) ∷ zs) s none none fresh free l'.linked in
      let (s', r, m) = list_add_after_lem ys zs z e s list fresh datum l' new in
      (
        _,
        s',
        rw (found_list e xs s list fuel h l, n) r,
        (
          ys ++ (z, e) ∷ (fresh, datum) ∷ zs,
          m,
          sym (rw q (ap (or_front datum _) (behind_found ys zs z e fresh datum f))),
        ),
      )

by_call :
    (call : Call) (s : Store) (list : Option ℕ) (xs : List Entry) (fuel fresh : ℕ)
    → s fresh ≡ none
    → length xs ≤ fuel
    → IsList s list xs
    → Refines fuel fresh call list s (plain_call call (map (λ x. x.1) xs))
unfolding list_call
by_call (prepend datum) s list xs fuel fresh free h l =
    let (s', r, m) =
      list_prepend_lem xs s list fresh datum l (free_IsNew xs s none none fresh free l.linked) in
    (_, s', r, ((fresh, datum) ∷ xs, m, refl))
by_call (append datum) s list xs fuel fresh free h l =
    let (list', s', r, (xs', m, q)) = append-Refines fuel fresh s list free xs datum h l in
    (list', s', r, (xs', m, q ∙ datums-append xs fresh datum))
by_call (remove e) s list xs fuel fresh free h l =
    remove-Refines fuel fresh s list free xs e h l (find-Found e xs)
by_call (add_before e datum) s list xs fuel fresh free h l =
    before-Refines fuel fresh s list free xs e datum h l (find-Found e xs)
by_call (add_after e datum) s list xs fuel fresh free h l =
    after-Refines fuel fresh s list free xs e datum h l (find-Found e xs)

-- Where a pointer stands for a list of data, malloc(3) answers with an address that is not in use, and
-- the fuel is as large as the list, each call that changes the list succeeds, and its result stands
-- for what the call makes of the plain list.
pub list_call_lem :
    (call : Call) (s : Store) (list : Option ℕ) (ds : List ℕ) (fuel fresh : ℕ)
    → s fresh ≡ none
    → length ds ≤ fuel
    → Represents s list ds
    → (list' : Option ℕ) × (s' : Store) × (list_call fuel fresh call list s ≡ some (list', s'))
      × Represents s' list' (plain_call call ds)
list_call_lem call s list ds fuel fresh free h (xs, l, q) =
    let few : length xs ≤ fuel = omega (arith, h, length-datums xs, ap length q) in
    subst (λ u. Refines fuel fresh call list s (plain_call call u)) q
      (by_call call s list xs fuel fresh free few l)
