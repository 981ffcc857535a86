-- ===== src/Links/Plain.antt =====
-- The calls of src/list.c that change a list, and the same on plain lists of data.
use sighttpd.Prelude.{
  ℕ, suc, false, Option, none, some, List, [], ◌∷◌, ◌++◌, ◌≡◌, ◌≢◌, inl, inr, refl, sym, ap, ◌∙◌,
  arith, map, length, if◌then◌else◌, ◌==◌, ◌>>=◌, All, Bool-cases, ==_iff, ==_refl,
}
use sighttpd.Links.{
  Node, Store, list_append, list_prepend, list_remove, list_find, list_add_before, list_add_after,
}
use sighttpd.Links.Chain.{Entry, Chain, IsNew, IsList}
use sighttpd.Links.Walk.{find}

-- A call of a client. Those that take a node get it from `list_find` with the datum `e`.
pub data Call : Type 0 where
  prepend append remove : ℕ → Call
  add_before add_after : (e datum : ℕ) → Call

unfoldable pub list_call : (fuel fresh : ℕ) → Call → Option ℕ → Store → Option (Option ℕ × Store)
list_call fuel fresh (prepend datum) list s = list_prepend fresh list datum s
list_call fuel fresh (append datum) list s = list_append fuel fresh list datum s
list_call fuel fresh (remove e) list s = do node ← list_find fuel list e s; list_remove list node s
list_call fuel fresh (add_before e datum) list s = do
  node ← list_find fuel list e s
  list_add_before fuel fresh list datum node s
list_call fuel fresh (add_after e datum) list s = do
  node ← list_find fuel list e s
  list_add_after fresh list datum node s

-- The same on a list of data: at the first `e`, or where there is none, nothing is removed, and a new
-- datum goes to the front of the list or to its end.
abbrev pub plain_remove : ℕ → List ℕ → List ℕ
plain_remove e [] = []
plain_remove e (d ∷ ds) = if d == e then ds else d ∷ plain_remove e ds

abbrev pub plain_before : (e datum : ℕ) → List ℕ → List ℕ
plain_before e datum [] = datum ∷ []
plain_before e datum (d ∷ ds) = if d == e then datum ∷ d ∷ ds else d ∷ plain_before e datum ds

abbrev pub insert_behind : (e datum : ℕ) → List ℕ → Option (List ℕ)
insert_behind e datum [] = none
insert_behind e datum (d ∷ ds) =
    if d == e then some (d ∷ datum ∷ ds) else (do rest ← insert_behind e datum ds; some (d ∷ rest))

abbrev pub or_front : ℕ → List ℕ → Option (List ℕ) → List ℕ
or_front datum ds none = datum ∷ ds
or_front datum ds (some result) = result

abbrev pub plain_call : Call → List ℕ → List ℕ
plain_call (prepend datum) ds = datum ∷ ds
plain_call (append datum) ds = ds ++ datum ∷ []
plain_call (remove e) ds = plain_remove e ds
plain_call (add_before e datum) ds = plain_before e datum ds
plain_call (add_after e datum) ds = or_front datum ds (insert_behind e datum ds)

-- What a list of nodes is for a client.
abbrev pub Represents : Store → Option ℕ → List ℕ → Type 0
Represents s list ds = (xs : List Entry) × IsList s list xs × (map (λ x. x.1) xs ≡ ds)

-- The first entry with a datum, with what is in front of it and behind it.
pub data Found (e : ℕ) (xs : List Entry) : Type 0 where
  missing : find e xs ≡ none → All (λ (x : Entry). (x.1 == e) ≡ false) xs → Found e xs
  found_at :
      (ys zs : List Entry) (z : ℕ)
      → xs ≡ ys ++ (z, e) ∷ zs
      → find e xs ≡ some z
      → All (λ (x : Entry). (x.1 == e) ≡ false) ys
      → Found e xs

pub find-Found : (e : ℕ) (xs : List Entry) → Found e xs
find-Found e [] = missing refl tt
find-Found e ((a, d) ∷ xs) = elim (Bool-cases (d == e)) [
  | inl h ↦ found_at [] xs a (ap (λ k. (a, k) ∷ xs) ((==_iff d e).0 h)) (rw h refl) tt
  | inr h ↦ elim (find-Found e xs) [
    | missing n f ↦ missing (rw h n) (h, f)
    | found_at ys zs z q n f ↦ found_at ((a, d) ∷ ys) zs z (ap (λ u. (a, d) ∷ u) q) (rw h n) (h, f)
  ]
]

-- What the plain calls do at the place that `find` finds, and where it finds none.
abbrev Others : ℕ → List Entry → Type 0
Others e xs = All (λ (x : Entry). (x.1 == e) ≡ false) xs

pub datums-append :
    (xs : List Entry) (a d : ℕ) → map (λ x. x.1) (xs ++ (a, d) ∷ []) ≡ map (λ x. x.1) xs ++ d ∷ []
datums-append [] a d = refl
datums-append ((b, e) ∷ xs) a d = ap (λ u. e ∷ u) (datums-append xs a d)

pub remove_found :
    (ys zs : List Entry) (z e : ℕ)
    → Others e ys
    → plain_remove e (map (λ x. x.1) (ys ++ (z, e) ∷ zs)) ≡ map (λ x. x.1) (ys ++ zs)
remove_found [] zs z e f = rw (==_refl e) refl
remove_found ((a, d) ∷ ys) zs z e (h, f) = rw h (ap (λ u. d ∷ u) (remove_found ys zs z e f))

pub remove_missing :
    (xs : List Entry) (e : ℕ) → Others e xs → plain_remove e (map (λ x. x.1) xs) ≡ map (λ x. x.1) xs
remove_missing [] e f = refl
remove_missing ((a, d) ∷ xs) e (h, f) = rw h (ap (λ u. d ∷ u) (remove_missing xs e f))

pub before_found :
    (ys zs : List Entry) (z e a datum : ℕ)
    → Others e ys
    → plain_before e datum (map (λ x. x.1) (ys ++ (z, e) ∷ zs))
      ≡ map (λ x. x.1) (ys ++ (a, datum) ∷ (z, e) ∷ zs)
before_found [] zs z e a datum f = rw (==_refl e) refl
before_found ((b, d) ∷ ys) zs z e a datum (h, f) =
    rw h (ap (λ u. d ∷ u) (before_found ys zs z e a datum f))

pub before_missing :
    (xs : List Entry) (e a datum : ℕ)
    → Others e xs
    → plain_before e datum (map (λ x. x.1) xs) ≡ map (λ x. x.1) (xs ++ (a, datum) ∷ [])
before_missing [] e a datum f = refl
before_missing ((b, d) ∷ xs) e a datum (h, f) =
    rw h (ap (λ u. d ∷ u) (before_missing xs e a datum f))

pub behind_found :
    (ys zs : List Entry) (z e a datum : ℕ)
    → Others e ys
    → insert_behind e datum (map (λ x. x.1) (ys ++ (z, e) ∷ zs))
      ≡ some (map (λ x. x.1) (ys ++ (z, e) ∷ (a, datum) ∷ zs))
behind_found [] zs z e a datum f = rw (==_refl e) refl
behind_found ((b, d) ∷ ys) zs z e a datum (h, f) = rw (h, behind_found ys zs z e a datum f) refl

pub behind_missing :
    (xs : List Entry) (e datum : ℕ) → Others e xs → insert_behind e datum (map (λ x. x.1) xs) ≡ none
behind_missing [] e datum f = refl
behind_missing ((b, d) ∷ xs) e datum (h, f) = rw (h, behind_missing xs e datum f) refl

some≢none : {n : Node} → some n ≢ none
some≢none e = absurd (ground (arith, e))

-- An address without a node is none of a chain's.
pub free_IsNew :
    (xs : List Entry) (s : Store) (prev next : Option ℕ) (fresh : ℕ)
    → s fresh ≡ none
    → Chain s prev xs next
    → IsNew fresh xs
free_IsNew [] s prev next fresh h c = tt
free_IsNew ((a, d) ∷ xs) s prev next fresh h (e, c) =
    (λ q. some≢none (sym e ∙ (ap s q ∙ h)), free_IsNew xs s (some a) next fresh h c)

pub before_null :
    (fuel fresh datum : ℕ) (list : Option ℕ) (s : Store)
    → list_add_before fuel fresh list datum none s ≡ list_append fuel fresh list datum s
unfolding list_add_before list_append
before_null fuel fresh datum none s = refl
before_null fuel fresh datum (some a) s = refl

pub length-datums : (xs : List Entry) → length (map (λ x. x.1) xs) ≡ length xs
length-datums [] = refl
length-datums (x ∷ xs) = ap (λ n. suc n) (length-datums xs)
