-- ===== src/Links/Append.antt =====
-- `list_append`, `list_prepend` and `list_join` of src/list.c on chains.
use sighttpd.Prelude.{ℕ, false, Option, none, some, List, [], ◌∷◌, ◌++◌, ◌≡◌, ◌≤◌, refl, length}
use sighttpd.Links.{
  Store, put, is_null, set_next_if, set_prev_if, list_node_new, list_append, list_prepend,
  list_join,
}
use sighttpd.Links.Chain.{
  Entry, first, last, Chain, IsNew, IsApart, IsList, Chain-frame, frame_put, put_same,
}
use sighttpd.Links.Apart.{IsDistinct-append, IsApart-sym}
use sighttpd.Links.Remove.{link-Chain}
use sighttpd.Links.Walk.{list_tail-Chain}

last_null : (a : ℕ) (xs : List Entry) → is_null (last (some a) xs) ≡ false
unfolding is_null
last_null a [] = refl
last_null a ((b, d) ∷ xs) = last_null b xs

-- With fuel for the nodes of the first list, `list_join` of two lists that share no node is the list of
-- the nodes of both, linked in both directions.
pub list_join_lem :
    (xs ys : List Entry) (s : Store) (l1 l2 : Option ℕ) (fuel : ℕ)
    → length xs ≤ fuel
    → IsList s l1 xs
    → IsList s l2 ys
    → IsApart xs ys
    → (s' : Store) × (list_join fuel l1 l2 s ≡ some (first (xs ++ ys) none, s'))
      × IsList s' (first (xs ++ ys) none) (xs ++ ys)
unfolding list_join is_null
list_join_lem [] ys s l1 l2 fuel h m n f = (
  s,
  rw (m.starts, list_tail-Chain [] s none fuel h tt, n.starts) refl,
  record { starts = refl; linked = n.linked; distinct = n.distinct },
)
list_join_lem ((a, d) ∷ xs) ys s l1 l2 fuel h m n f =
    let (s', r, s2, r2, c, keeps, keeps2) =
      link-Chain ((a, d) ∷ xs) ys s none none m.distinct n.distinct f m.linked n.linked in
    let tail = list_tail-Chain ((a, d) ∷ xs) s none fuel h m.linked in
    (
      s2,
      rw (m.starts, tail, n.starts, last_null a xs, r, r2) refl,
      record {
        starts = refl;
        linked = c;
        distinct = IsDistinct-append ((a, d) ∷ xs) ys m.distinct n.distinct f;
      },
    )

-- The store with a node made by malloc(3), at an address that is not in the list.
pub new-Chain :
    (s : Store) (fresh datum : ℕ)
    → Chain (list_node_new fresh datum s) none ((fresh, datum) ∷ []) none
unfolding list_node_new
new-Chain s fresh datum = (put_same fresh _ s, tt)

pub old-Chain :
    (xs : List Entry) (s : Store) (fresh datum : ℕ)
    → IsNew fresh xs
    → Chain s none xs none
    → Chain (list_node_new fresh datum s) none xs none
unfolding list_node_new
old-Chain xs s fresh datum f c =
    Chain-frame s (put fresh _ s) none xs none (frame_put fresh _ xs s f) c

pub IsApart-new :
    (xs : List Entry) (fresh datum : ℕ) → IsNew fresh xs → IsApart xs ((fresh, datum) ∷ [])
IsApart-new xs fresh datum f = IsApart-sym ((fresh, datum) ∷ []) xs (f, tt)

-- `list_append` puts a new node behind all others.
pub list_append_lem :
    (xs : List Entry) (s : Store) (list : Option ℕ) (fresh datum fuel : ℕ)
    → length xs ≤ fuel
    → IsList s list xs
    → IsNew fresh xs
    → (s' : Store) × (list_append fuel fresh list datum s
        ≡ some (first (xs ++ (fresh, datum) ∷ []) none, s'))
      × IsList s' (first (xs ++ (fresh, datum) ∷ []) none) (xs ++ (fresh, datum) ∷ [])
unfolding list_append set_prev_if
list_append_lem [] s list fresh datum fuel h m f = (
  list_node_new fresh datum s,
  rw m.starts refl,
  record { starts = refl; linked = new-Chain s fresh datum; distinct = (tt, tt) },
)
list_append_lem ((a, d) ∷ xs) s list fresh datum fuel h m f =
    let c = old-Chain ((a, d) ∷ xs) s fresh datum f m.linked in
    let apart = IsApart-new ((a, d) ∷ xs) fresh datum f in
    let (s', r, s2, r2, c2, keeps, keeps2) =
      link-Chain ((a, d) ∷ xs) ((fresh, datum) ∷ []) (list_node_new fresh datum s) none none
        m.distinct (tt, tt) apart c (new-Chain s fresh datum) in
    let tail = list_tail-Chain ((a, d) ∷ xs) (list_node_new fresh datum s) none fuel h c in
    (
      s2,
      rw (m.starts, tail, r, r2) refl,
      record {
        starts = refl;
        linked = c2;
        distinct = IsDistinct-append ((a, d) ∷ xs) ((fresh, datum) ∷ []) m.distinct (tt, tt) apart;
      },
    )

-- `list_prepend` puts it in front of them.
pub list_prepend_lem :
    (xs : List Entry) (s : Store) (list : Option ℕ) (fresh datum : ℕ)
    → IsList s list xs
    → IsNew fresh xs
    → (s' : Store) × (list_prepend fresh list datum s ≡ some (some fresh, s'))
      × IsList s' (some fresh) ((fresh, datum) ∷ xs)
unfolding list_prepend set_next_if set_prev_if
list_prepend_lem [] s list fresh datum m f = (
  list_node_new fresh datum s,
  rw m.starts refl,
  record { starts = refl; linked = new-Chain s fresh datum; distinct = (tt, tt) },
)
list_prepend_lem ((a, d) ∷ xs) s list fresh datum m f =
    let (s', r, s2, r2, c, keeps, keeps2) =
      link-Chain ((fresh, datum) ∷ []) ((a, d) ∷ xs) (list_node_new fresh datum s) none none
        (tt, tt) m.distinct (f, tt) (new-Chain s fresh datum)
        (old-Chain ((a, d) ∷ xs) s fresh datum f m.linked) in
    (
      s2,
      rw (m.starts, r, r2) refl,
      record { starts = refl; linked = c; distinct = (f, m.distinct) },
    )
