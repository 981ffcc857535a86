-- ===== src/Links.antt =====
-- src/list.c: doubly linked lists over a store of nodes. An address is a natural, a pointer is
-- `none` where it is NULL, and data are addresses that nothing here follows. An operation fails, as
-- `none`, where it follows a pointer to no node; `fresh` is the answer of malloc(3). The loops take
-- fuel.
pub mod Chain
pub mod Apart
pub mod Remove
pub mod Walk
pub mod Append
pub mod Insert
pub mod Plain
pub mod Refine
mod Tests
use sighttpd.Prelude.{
  ℕ, suc, zero, ◌+◌, Bool, true, false, Option, none, some, List, [], ◌∷◌, ◌++◌, ◌==◌,
  if◌then◌else◌, ◌>>=◌,
}

-- `struct _list`
pub record Node : Type 0 where
  pub prev : Option ℕ
  pub next : Option ℕ
  pub datum : ℕ

abbrev pub Store : Type 0
Store = ℕ → Option Node

abbrev pub put : ℕ → Option Node → Store → Store
put a node s b = if b == a then node else s b

-- `p->next = v` and `p->prev = v`
unfoldable pub set_next : ℕ → Option ℕ → Store → Option Store
set_next a v s = do node ← s a; some (put a (some (record node { next = v })) s)

unfoldable pub set_prev : ℕ → Option ℕ → Store → Option Store
set_prev a v s = do node ← s a; some (put a (some (record node { prev = v })) s)

-- The same under `if (p)`.
unfoldable pub set_next_if : Option ℕ → Option ℕ → Store → Option Store
set_next_if none v s = some s
set_next_if (some a) v s = set_next a v s

unfoldable pub set_prev_if : Option ℕ → Option ℕ → Store → Option Store
set_prev_if none v s = some s
set_prev_if (some a) v s = set_prev a v s

-- `p == q` for pointers
unfoldable pub same : Option ℕ → Option ℕ → Bool
same none none = true
same none (some b) = false
same (some a) none = false
same (some a) (some b) = a == b

unfoldable pub is_null : Option ℕ → Bool
is_null none = true
is_null (some a) = false

-- `list_node_new`
unfoldable pub list_node_new : (fresh datum : ℕ) → Store → Store
list_node_new fresh datum s =
    put fresh (some (record { prev = none; next = none; datum = datum })) s

abbrev pub list_new : Option ℕ
list_new = none

-- `list_tail`
unfoldable pub list_tail : ℕ → Option ℕ → Store → Option (Option ℕ)
list_tail fuel none s = some none
list_tail zero (some a) s = none
list_tail (suc fuel) (some a) s = do
  node ← s a
  let rest = list_tail fuel node.next s
  (if is_null node.next then some (some a) else rest)

-- `list_prepend`
unfoldable pub list_prepend : (fresh : ℕ) → Option ℕ → ℕ → Store → Option (Option ℕ × Store)
list_prepend fresh none datum s = some (some fresh, list_node_new fresh datum s)
list_prepend fresh (some a) datum s = do
  s ← set_next fresh (some a) (list_node_new fresh datum s)
  s ← set_prev a (some fresh) s
  some (some fresh, s)

-- `list_append`
unfoldable pub list_append : (fuel fresh : ℕ) → Option ℕ → ℕ → Store → Option (Option ℕ × Store)
list_append fuel fresh none datum s = some (some fresh, list_node_new fresh datum s)
list_append fuel fresh (some a) datum s = do
  let s = list_node_new fresh datum s
  last ← list_tail fuel (some a) s
  s ← set_next_if last (some fresh) s
  s ← set_prev fresh last s
  some (some a, s)

-- `list_add_before` behind its tests for NULL and for the first node
unfoldable pub insert_before :
    (fresh : ℕ) → Option ℕ → (datum node : ℕ) → Store → Option (Option ℕ × Store)
insert_before fresh list datum node s = do
  let s = list_node_new fresh datum s
  n ← s node
  s ← set_prev fresh n.prev s
  s ← set_next fresh (some node) s
  s ← set_next_if n.prev (some fresh) s
  s ← set_prev node (some fresh) s
  some (list, s)

-- `list_add_before`
unfoldable pub list_add_before :
    (fuel fresh : ℕ) → Option ℕ → ℕ → Option ℕ → Store → Option (Option ℕ × Store)
list_add_before fuel fresh none datum place s = some (some fresh, list_node_new fresh datum s)
list_add_before fuel fresh (some a) datum none s = list_append fuel fresh (some a) datum s
list_add_before fuel fresh (some a) datum (some b) s =
    if b == a then list_prepend fresh (some a) datum s else insert_before fresh (some a) datum b s

-- `list_add_after`
unfoldable pub list_add_after :
    (fresh : ℕ) → Option ℕ → ℕ → Option ℕ → Store → Option (Option ℕ × Store)
list_add_after fresh list datum none s = list_prepend fresh list datum s
list_add_after fresh list datum (some node) s = do
  let s = list_node_new fresh datum s
  n ← s node
  s ← set_prev fresh (some node) s
  s ← set_next fresh n.next s
  s ← set_prev_if n.next (some fresh) s
  s ← set_next node (some fresh) s
  some (list, s)

-- `list_find`
unfoldable pub list_find : ℕ → Option ℕ → ℕ → Store → Option (Option ℕ)
list_find fuel none datum s = some none
list_find zero (some a) datum s = none
list_find (suc fuel) (some a) datum s = do
  node ← s a
  let rest = list_find fuel node.next datum s
  (if node.datum == datum then some (some a) else rest)

-- `list_remove`
unfoldable pub list_remove : Option ℕ → Option ℕ → Store → Option (Option ℕ × Store)
list_remove list none s = some (list, s)
list_remove list (some node) s = do
  n ← s node
  s ← set_next_if n.prev n.next s
  n ← s node
  s ← set_prev_if n.next n.prev s
  n ← s node
  some (if same (some node) list then n.next else list, s)

-- `list_join`
unfoldable pub list_join : ℕ → Option ℕ → Option ℕ → Store → Option (Option ℕ × Store)
list_join fuel l1 l2 s = do
  tail1 ← list_tail fuel l1 s
  (if is_null tail1
      then some (l2, s)
      else (do s ← set_next_if tail1 l2 s; s ← set_prev_if l2 tail1 s; some (l1, s)))

-- `list_length`, whose `int` counts the nodes
unfoldable pub list_length : ℕ → Option ℕ → Store → Option ℕ
list_length fuel none s = some 0
list_length zero (some a) s = none
list_length (suc fuel) (some a) s = do
  node ← s a
  rest ← list_length fuel node.next s
  some (rest + 1)

abbrev pub list_is_empty : Option ℕ → Bool
list_is_empty list = is_null list

unfoldable pub list_is_singleton : Option ℕ → Store → Option Bool
list_is_singleton none s = some false
list_is_singleton (some a) s = do node ← s a; some (is_null node.next)

-- `list_free_with`: the data that `free_func` is called with, in their order, and the store
unfoldable pub list_free_with : ℕ → Option ℕ → Store → Option (List ℕ × Store)
list_free_with fuel none s = some ([], s)
list_free_with zero (some a) s = none
list_free_with (suc fuel) (some a) s = do
  node ← s a
  (freed, s) ← list_free_with fuel node.next (put a none s)
  some (node.datum ∷ freed, s)

-- `list_free`
unfoldable pub list_free : ℕ → Option ℕ → Store → Option Store
list_free fuel none s = some s
list_free zero (some a) s = none
list_free (suc fuel) (some a) s = do node ← s a; list_free fuel node.next (put a none s)
