-- ===== src/Links/Apart.antt =====
-- Addresses of chains that are put together or taken apart.
use sighttpd.Prelude.{ℕ, List, [], ◌∷◌, ◌++◌, ◌≢◌, sym, All-append}
use sighttpd.Links.Chain.{Entry, IsNew, IsDistinct, IsApart}

pub IsNew-split : (a : ℕ) (xs ys : List Entry) → IsNew a (xs ++ ys) → IsNew a xs × IsNew a ys
IsNew-split a [] ys f = (tt, f)
IsNew-split a (x ∷ xs) ys (h, f) = let (g, k) = IsNew-split a xs ys f in ((h, g), k)

pub IsDistinct-split :
    (xs ys : List Entry) → IsDistinct (xs ++ ys) → IsDistinct xs × IsDistinct ys × IsApart xs ys
IsDistinct-split [] ys f = (tt, f, tt)
IsDistinct-split ((a, d) ∷ xs) ys (h, f) =
    let (i, j) = IsNew-split a xs ys h in
    let (k, l, m) = IsDistinct-split xs ys f in ((i, k), l, (j, m))

pub IsDistinct-append :
    (xs ys : List Entry) → IsDistinct xs → IsDistinct ys → IsApart xs ys → IsDistinct (xs ++ ys)
IsDistinct-append [] ys f g k = g
IsDistinct-append ((a, d) ∷ xs) ys (h, f) g (j, k) =
    (All-append (λ (x : Entry). x.0 ≢ a) xs ys h j, IsDistinct-append xs ys f g k)

pub IsApart-nil : (xs : List Entry) → IsApart xs []
IsApart-nil [] = tt
IsApart-nil (x ∷ xs) = (tt, IsApart-nil xs)

pub IsApart-cons :
    (x : Entry) (xs ys : List Entry) → IsNew x.0 ys → IsApart ys xs → IsApart ys (x ∷ xs)
IsApart-cons x xs [] f g = tt
IsApart-cons x xs (y ∷ ys) (h, f) (k, g) = ((λ e. h (sym e), k), IsApart-cons x xs ys f g)

pub IsApart-sym : (xs ys : List Entry) → IsApart xs ys → IsApart ys xs
IsApart-sym [] ys f = IsApart-nil ys
IsApart-sym (x ∷ xs) ys (h, f) = IsApart-cons x xs ys h (IsApart-sym xs ys f)

-- Apart from a list with a first entry.
pub IsApart-uncons :
    (x : Entry) (xs ys : List Entry) → IsApart ys (x ∷ xs) → IsNew x.0 ys × IsApart ys xs
IsApart-uncons x xs [] f = (tt, tt)
IsApart-uncons x xs (y ∷ ys) ((h, k), f) =
    let (i, j) = IsApart-uncons x xs ys f in ((λ e. h (sym e), i), (k, j))
