-- ===== src/Links/Chain.antt =====
-- What a pointer of src/list.c stands for: a chain of nodes, each with its address and its datum.
use sighttpd.Prelude.{
  ℕ, Option, none, some, List, [], ◌∷◌, ◌++◌, ◌≡◌, ◌≢◌, refl, sym, ◌∙◌, All, ==_ne, ==_refl,
}
use sighttpd.Links.{Node, Store, put, set_next, set_prev, set_next_if, set_prev_if}

abbrev pub Entry : Type 0
Entry = ℕ × ℕ

-- The address of the first entry, of the last one, and what stands there instead without entries.
abbrev pub first : List Entry → Option ℕ → Option ℕ
first [] next = next
first ((a, d) ∷ xs) next = some a

abbrev pub last : Option ℕ → List Entry → Option ℕ
last prev [] = prev
last prev ((a, d) ∷ xs) = last (some a) xs

-- The entries linked in both directions between `prev` and `next`.
abbrev pub Chain : Store → Option ℕ → List Entry → Option ℕ → Type 0
Chain s prev [] next = Unit
Chain s prev ((a, d) ∷ xs) next =
    (s a ≡ some (record { prev = prev; next = first xs next; datum = d }))
    × Chain s (some a) xs next

-- An address that no entry has; addresses that differ; and entries with addresses of their own.
abbrev pub IsNew : ℕ → List Entry → Type 0
IsNew a xs = All (λ (x : Entry). x.0 ≢ a) xs

abbrev pub IsDistinct : List Entry → Type 0
IsDistinct [] = Unit
IsDistinct ((a, d) ∷ xs) = IsNew a xs × IsDistinct xs

abbrev pub IsApart : List Entry → List Entry → Type 0
IsApart xs ys = All (λ (x : Entry). IsNew x.0 ys) xs

pub put_same : (a : ℕ) (n : Option Node) (s : Store) → put a n s a ≡ n
put_same a n s = rw (==_refl a) refl

pub put_other : (a b : ℕ) (n : Option Node) (s : Store) → b ≢ a → put a n s b ≡ s b
put_other a b n s h = rw (==_ne b a h) refl

-- A chain stays where its nodes stay.
pub Chain-frame :
    (s s' : Store) (prev : Option ℕ) (xs : List Entry) (next : Option ℕ)
    → All (λ (x : Entry). s' x.0 ≡ s x.0) xs
    → Chain s prev xs next
    → Chain s' prev xs next
Chain-frame s s' prev [] next f c = tt
Chain-frame s s' prev ((a, d) ∷ xs) next (e, f) (h, c) =
    (e ∙ h, Chain-frame s s' (some a) xs next f c)

-- A store that differs from another on no address outside of `xs`.
abbrev pub KeepsOthers : List Entry → Store → Store → Type 0
KeepsOthers xs s s' = (a : ℕ) → IsNew a xs → s' a ≡ s a

pub frame_apart :
    (xs ys : List Entry) (s s' : Store)
    → KeepsOthers xs s s'
    → IsApart ys xs
    → All (λ (x : Entry). s' x.0 ≡ s x.0) ys
frame_apart xs [] s s' k f = tt
frame_apart xs ((a, d) ∷ ys) s s' k (h, f) = (k a h, frame_apart xs ys s s' k f)

pub set_last-Chain :
    (a d : ℕ) (xs : List Entry) (s : Store) (prev next v : Option ℕ)
    → IsDistinct ((a, d) ∷ xs)
    → Chain s prev ((a, d) ∷ xs) next
    → (s' : Store) × (set_next_if (last (some a) xs) v s ≡ some s')
      × Chain s' prev ((a, d) ∷ xs) v
      × KeepsOthers ((a, d) ∷ xs) s s'
unfolding set_next_if set_next
set_last-Chain a d [] s prev next v f (h, c) = (
  put a (some (record { prev = prev; next = v; datum = d })) s,
  rw h refl,
  (put_same a _ s, tt),
  λ b k. put_other a b _ s (λ e. k.0 (sym e)),
)
set_last-Chain a d ((b, e) ∷ xs) s prev next v (k, f) (h, c) =
    let (s', r, c', o) = set_last-Chain b e xs s (some a) next v f c in
    (s', r, (o a k ∙ h, c'), λ z n. o z n.1)

-- The last entry gets a new successor, or the first one a new predecessor.
pub set_next_if-Chain :
    (xs : List Entry) (s : Store) (next v : Option ℕ)
    → IsDistinct xs
    → Chain s none xs next
    → (s' : Store) × (set_next_if (last none xs) v s ≡ some s')
      × Chain s' none xs v
      × KeepsOthers xs s s'
unfolding set_next_if
set_next_if-Chain [] s next v f c = (s, refl, tt, λ a k. refl)
set_next_if-Chain ((a, d) ∷ xs) s next v f c = set_last-Chain a d xs s none next v f c

pub frame_put :
    (a : ℕ) (n : Option Node) (xs : List Entry) (s : Store)
    → IsNew a xs
    → All (λ (x : Entry). put a n s x.0 ≡ s x.0) xs
frame_put a n [] s f = tt
frame_put a n ((b, e) ∷ xs) s (h, f) = (put_other a b n s h, frame_put a n xs s f)

pub set_prev_if-Chain :
    (xs : List Entry) (s : Store) (prev v : Option ℕ)
    → IsDistinct xs
    → Chain s prev xs none
    → (s' : Store) × (set_prev_if (first xs none) v s ≡ some s')
      × Chain s' v xs none
      × KeepsOthers xs s s'
unfolding set_prev_if set_prev
set_prev_if-Chain [] s prev v f c = (s, refl, tt, λ a k. refl)
set_prev_if-Chain ((a, d) ∷ xs) s prev v (k, f) (h, c) =
    let node : Option Node = some (record { prev = v; next = first xs none; datum = d }) in
    (
      put a node s,
      rw h refl,
      (
        put_same a node s,
        Chain-frame s (put a node s) (some a) xs none (frame_put a node xs s k) c,
      ),
      λ b m. put_other a b node s (λ e. m.0 (sym e)),
    )

pub first-append :
    (xs ys : List Entry) (next : Option ℕ) → first (xs ++ ys) next ≡ first xs (first ys next)
first-append [] ys next = refl
first-append ((a, d) ∷ xs) ys next = refl

-- Two chains, one behind the other.
pub Chain-append :
    (xs ys : List Entry) (s : Store) (prev next : Option ℕ)
    → Chain s prev xs (first ys next)
    → Chain s (last prev xs) ys next
    → Chain s prev (xs ++ ys) next
Chain-append [] ys s prev next c e = e
Chain-append ((a, d) ∷ xs) ys s prev next (h, c) e =
    (rw (first-append xs ys next) h, Chain-append xs ys s (some a) next c e)

pub Chain-split :
    (xs ys : List Entry) (s : Store) (prev next : Option ℕ)
    → Chain s prev (xs ++ ys) next
    → Chain s prev xs (first ys next) × Chain s (last prev xs) ys next
Chain-split [] ys s prev next c = (tt, c)
Chain-split ((a, d) ∷ xs) ys s prev next (h, c) =
    let (e, f) = Chain-split xs ys s (some a) next c in
    ((h ∙ rw (first-append xs ys next) refl, e), f)

-- A pointer stands for the entries of a list.
pub record IsList (s : Store) (list : Option ℕ) (xs : List Entry) : Type 0 where
  pub starts : list ≡ first xs none
  pub linked : Chain s none xs none
  pub distinct : IsDistinct xs
