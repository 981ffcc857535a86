-- ===== src/Links/Insert.antt =====
-- `list_add_before` and `list_add_after` of src/list.c on chains.
use sighttpd.Prelude.{
  ℕ, Option, none, some, List, [], ◌∷◌, ◌++◌, ◌≡◌, ◌≢◌, refl, sym, ap, ◌∙◌, All, ==_ne, ==_refl,
}
use sighttpd.Links.{
  Store, put, set_next, set_prev, set_next_if, set_prev_if, list_node_new, insert_before,
  list_prepend, list_add_before, list_add_after,
}
use sighttpd.Links.Chain.{
  Entry, first, last, Chain, IsNew, IsDistinct, IsList, Chain-frame, frame_apart, put_same,
  put_other, set_next_if-Chain, set_last-Chain, set_prev_if-Chain, Chain-append, Chain-split,
  first-append,
}
use sighttpd.Links.Apart.{
  IsNew-split, IsDistinct-split, IsDistinct-append, IsApart-sym, IsApart-uncons, IsApart-cons,
}
use sighttpd.Links.Append.{list_prepend_lem}

-- The links of a new node set: the other nodes stay.
set_links :
    (s : Store) (fresh datum : ℕ) (p n : Option ℕ)
    → (s' : Store) × (set_prev fresh p (list_node_new fresh datum s) ≡ some s')
      × (s3 : Store) × (set_next fresh n s' ≡ some s3)
      × (s3 fresh ≡ some (record { prev = p; next = n; datum = datum }))
      × ((b : ℕ) → b ≢ fresh → s3 b ≡ s b)
unfolding set_prev set_next list_node_new
set_links s fresh datum p n =
    let s1 : Store = put fresh (some (record { prev = none; next = none; datum = datum })) s in
    let s' : Store = put fresh (some (record { prev = p; next = none; datum = datum })) s1 in
    let s3 : Store = put fresh (some (record { prev = p; next = n; datum = datum })) s' in
    (
      s',
      rw (put_same fresh _ s) refl,
      s3,
      rw (put_same fresh _ s1) refl,
      put_same fresh _ s',
      λ b h. put_other fresh b _ s' h ∙ (put_other fresh b _ s1 h ∙ put_other fresh b _ s h),
    )

frame_new :
    (xs : List Entry) (fresh : ℕ) (s s' : Store)
    → ((b : ℕ) → b ≢ fresh → s' b ≡ s b)
    → IsNew fresh xs
    → All (λ (x : Entry). s' x.0 ≡ s x.0) xs
frame_new [] fresh s s' k f = tt
frame_new ((a, d) ∷ xs) fresh s s' k (h, f) = (k a h, frame_new xs fresh s s' k f)

node_new_other : (s : Store) (fresh datum z : ℕ) → z ≢ fresh → list_node_new fresh datum s z ≡ s z
unfolding list_node_new
node_new_other s fresh datum z h = put_other fresh z _ s h

last_node : (ys : List Entry) (z d : ℕ) (prev : Option ℕ) → last prev (ys ++ (z, d) ∷ []) ≡ some z
last_node [] z d prev = refl
last_node ((a, e) ∷ ys) z d prev = last_node ys z d (some a)

module _ (ys zs : List Entry) (z d : ℕ) (s : Store) (list : Option ℕ) (fresh datum : ℕ)
    (l : IsList s list (ys ++ (z, d) ∷ zs)) (is_new : IsNew fresh (ys ++ (z, d) ∷ zs)) where
  -- `insert_before` puts the new node between the node and the one before it.
  insert_before-Chain :
      (s' : Store) × (insert_before fresh list datum z s ≡ some (list, s'))
      × Chain s' none (ys ++ (fresh, datum) ∷ (z, d) ∷ zs) none
  unfolding insert_before set_prev_if
  insert_before-Chain =
      let (dys, dz, apart) = IsDistinct-split ys ((z, d) ∷ zs) l.distinct in
      let (new_ys, (new_z, new_zs)) = IsNew-split fresh ys ((z, d) ∷ zs) is_new in
      let (cys, (hz, czs)) = Chain-split ys ((z, d) ∷ zs) s none none l.linked in
      let h1 = node_new_other s fresh datum z new_z ∙ hz in
      let (s2, r2, s3, r3, h3, keeps3) = set_links s fresh datum (last none ys) (some z) in
      let cys3 = Chain-frame s s3 none ys (some z) (frame_new ys fresh s s3 keeps3 new_ys) cys in
      let czs3 =
        Chain-frame s s3 (last none ys) ((z, d) ∷ zs) none
          (frame_new ((z, d) ∷ zs) fresh s s3 keeps3 (new_z, new_zs)) (hz, czs) in
      let (s4, r4, c4, keeps4) = set_next_if-Chain ys s3 (some z) (some fresh) dys cys3 in
      let czs4 =
        Chain-frame s3 s4 (last none ys) ((z, d) ∷ zs) none
          (frame_apart ys ((z, d) ∷ zs) s3 s4 keeps4 (IsApart-sym ys ((z, d) ∷ zs) apart)) czs3 in
      let (s5, r5, c5, keeps5) =
        set_prev_if-Chain ((z, d) ∷ zs) s4 (last none ys) (some fresh) dz czs4 in
      let cys5 =
        Chain-frame s4 s5 none ys (some fresh) (frame_apart ((z, d) ∷ zs) ys s4 s5 keeps5 apart)
          c4 in
      let h5 = keeps5 fresh (new_z, new_zs) ∙ (keeps4 fresh new_ys ∙ h3) in
      (
        s5,
        rw (h1, r2, r3, r4, r5) refl,
        Chain-append ys ((fresh, datum) ∷ (z, d) ∷ zs) s5 none none cys5 (h5, c5),
      )

  insert-IsDistinct : IsDistinct (ys ++ (fresh, datum) ∷ (z, d) ∷ zs)
  insert-IsDistinct =
      let (dys, dz, apart) = IsDistinct-split ys ((z, d) ∷ zs) l.distinct in
      let (new_ys, new_zs) = IsNew-split fresh ys ((z, d) ∷ zs) is_new in
      IsDistinct-append ys ((fresh, datum) ∷ (z, d) ∷ zs) dys (new_zs, dz)
        (IsApart-cons (fresh, datum) ((z, d) ∷ zs) ys new_ys apart)

  -- `list_add_after` puts the new node between the node and the one behind it.
  add_after-Chain :
      (s' : Store) × (list_add_after fresh list datum (some z) s ≡ some (list, s'))
      × Chain s' none (ys ++ (z, d) ∷ (fresh, datum) ∷ zs) none
  unfolding list_add_after set_next_if
  add_after-Chain =
      let (dys, (new_zs_z, dzs), apart) = IsDistinct-split ys ((z, d) ∷ zs) l.distinct in
      let (nz, apart') = IsApart-uncons (z, d) zs ys apart in
      let (new_ys, (new_z, new_zs)) = IsNew-split fresh ys ((z, d) ∷ zs) is_new in
      let (cys, (hz, czs)) = Chain-split ys ((z, d) ∷ zs) s none none l.linked in
      let h1 = node_new_other s fresh datum z new_z ∙ hz in
      let (s2, r2, s3, r3, h3, keeps3) = set_links s fresh datum (some z) (first zs none) in
      let cys3 = Chain-frame s s3 none ys (some z) (frame_new ys fresh s s3 keeps3 new_ys) cys in
      let czs3 = Chain-frame s s3 (some z) zs none (frame_new zs fresh s s3 keeps3 new_zs) czs in
      let (s4, r4, c4, keeps4) = set_prev_if-Chain zs s3 (some z) (some fresh) dzs czs3 in
      let cys4 = Chain-frame s3 s4 none ys (some z) (frame_apart zs ys s3 s4 keeps4 apart') cys3 in
      let h4 = keeps4 fresh new_zs ∙ h3 in
      let hz4 = keeps4 z new_zs_z ∙ (keeps3 z new_z ∙ hz) in
      let node : List Entry = (z, d) ∷ [] in
      let (s5, r5, c5, keeps5) =
        set_last-Chain z d [] s4 (last none ys) (first zs none) (some fresh) (tt, tt) (hz4, tt) in
      let cys5 =
        Chain-frame s4 s5 none ys (some z)
          (frame_apart node ys s4 s5 keeps5 (IsApart-sym node ys (nz, tt))) cys4 in
      let c6 =
        Chain-frame s4 s5 (some z) ((fresh, datum) ∷ zs) none
          (frame_apart node ((fresh, datum) ∷ zs) s4 s5 keeps5
            (IsApart-sym node ((fresh, datum) ∷ zs) (((λ e. new_z (sym e)), new_zs_z), tt)))
          (h4, c4) in
      (
        s5,
        rw (h1, r2, r3, r4, r5) refl,
        Chain-append ys ((z, d) ∷ (fresh, datum) ∷ zs) s5 none none cys5 (c5.0, c6),
      )

  after-IsDistinct : IsDistinct (ys ++ (z, d) ∷ (fresh, datum) ∷ zs)
  after-IsDistinct =
      let (dys, (nz, dzs), apart) = IsDistinct-split ys ((z, d) ∷ zs) l.distinct in
      let (apart_z, apart_zs) = IsApart-uncons (z, d) zs ys apart in
      let (new_ys, (new_z, new_zs)) = IsNew-split fresh ys ((z, d) ∷ zs) is_new in
      IsDistinct-append ys ((z, d) ∷ (fresh, datum) ∷ zs) dys
        (((λ e. new_z (sym e)), nz), (new_zs, dzs))
        (IsApart-cons (z, d) ((fresh, datum) ∷ zs) ys apart_z
          (IsApart-cons (fresh, datum) zs ys new_ys apart_zs))

-- `list_add_after` puts a new node behind the one given, wherever in the list this is.
pub list_add_after_lem :
    (ys zs : List Entry) (z d : ℕ) (s : Store) (list : Option ℕ) (fresh datum : ℕ)
    → IsList s list (ys ++ (z, d) ∷ zs)
    → IsNew fresh (ys ++ (z, d) ∷ zs)
    → (s' : Store) × (list_add_after fresh list datum (some z) s ≡ some (list, s'))
      × IsList s' list (ys ++ (z, d) ∷ (fresh, datum) ∷ zs)
list_add_after_lem ys zs z d s list fresh datum l f =
    let (s', r, c) = add_after-Chain ys zs z d s list fresh datum l f in
    (
      s',
      r,
      record {
        starts =
            l.starts
            ∙ (first-append ys ((z, d) ∷ zs) none
                ∙ sym (first-append ys ((z, d) ∷ (fresh, datum) ∷ zs) none));
        linked = c;
        distinct = after-IsDistinct ys zs z d s list fresh datum l f;
      },
    )

add_first :
    (z : ℕ) (s : Store) (list : Option ℕ) (fresh datum fuel : ℕ)
    → list ≡ some z
    → list_add_before fuel fresh list datum (some z) s ≡ list_prepend fresh list datum s
unfolding list_add_before
add_first z s list fresh datum fuel e = rw (e, ==_refl z) refl

add_other :
    (z a : ℕ) (s : Store) (list : Option ℕ) (fresh datum fuel : ℕ)
    → list ≡ some a
    → z ≢ a
    → list_add_before fuel fresh list datum (some z) s ≡ insert_before fresh list datum z s
unfolding list_add_before
add_other z a s list fresh datum fuel e h = rw (e, ==_ne z a h) refl

-- `list_add_before` puts it in front of the one given, also where this is the first.
pub list_add_before_lem :
    (ys zs : List Entry) (z d : ℕ) (s : Store) (list : Option ℕ) (fresh datum fuel : ℕ)
    → IsList s list (ys ++ (z, d) ∷ zs)
    → IsNew fresh (ys ++ (z, d) ∷ zs)
    → (s' : Store) × (list_add_before fuel fresh list datum (some z) s
        ≡ some (first (ys ++ (fresh, datum) ∷ (z, d) ∷ zs) none, s'))
      × IsList s'
          (first (ys ++ (fresh, datum) ∷ (z, d) ∷ zs) none)
          (ys ++ (fresh, datum) ∷ (z, d) ∷ zs)
list_add_before_lem [] zs z d s list fresh datum fuel l f =
    let (s', r, m) = list_prepend_lem ((z, d) ∷ zs) s list fresh datum l f in
    (s', add_first z s list fresh datum fuel l.starts ∙ r, m)
list_add_before_lem ((a, e) ∷ ys) zs z d s list fresh datum fuel l f =
    let (s', r, c) = insert_before-Chain ((a, e) ∷ ys) zs z d s list fresh datum l f in
    let apart = (IsNew-split a ys ((z, d) ∷ zs) l.distinct.0).1.0 in
    (
      s',
      add_other z a s list fresh datum fuel l.starts apart ∙ (r ∙ ap (λ p. some (p, s')) l.starts),
      record {
        starts = refl;
        linked = c;
        distinct = insert-IsDistinct ((a, e) ∷ ys) zs z d s list fresh datum l f;
      },
    )
