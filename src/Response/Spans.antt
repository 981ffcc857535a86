-- ===== src/Response/Spans.antt =====
-- Spans of a text and of one that goes on behind it.
use sighttpd.Prelude.{
  ℕ, suc, zero, ◌≤◌, ◌<◌, Text, [], ◌∷◌, ◌++◌, ◌≡◌, refl, ap, arith, take, drop, length, strcspn,
  strspn,
}

-- A span that ends before the text does is that of the longer text.
pub strcspn-longer :
    (a b set : Text) → strcspn a set < length a → strcspn (a ++ b) set ≡ strcspn a set
unfolding strcspn
strcspn-longer [] b set h = absurd (omega arith)
strcspn-longer (c ∷ a) b set h = ground (arith, strcspn-longer a b set)

pub strspn-longer : (a b set : Text) → strspn a set < length a → strspn (a ++ b) set ≡ strspn a set
unfolding strspn
strspn-longer [] b set h = absurd (omega arith)
strspn-longer (c ∷ a) b set h = ground (arith, strspn-longer a b set)

pub strspn_le : (a set : Text) → strspn a set ≤ length a
unfolding strspn
strspn_le [] set = omega arith
strspn_le (c ∷ a) set = ground (arith, strspn_le a set)

pub take-longer : (n : ℕ) (a b : Text) → n ≤ length a → take n (a ++ b) ≡ take n a
take-longer zero a b h = refl
take-longer (suc n) [] b h = absurd (omega arith)
take-longer (suc n) (x ∷ a) b h = ap (λ t. x ∷ t) (take-longer n a b (omega arith))

pub drop-longer : (n : ℕ) (a b : Text) → n ≤ length a → drop n (a ++ b) ≡ drop n a ++ b
drop-longer zero a b h = refl
drop-longer (suc n) [] b h = absurd (omega arith)
drop-longer (suc n) (x ∷ a) b h = drop-longer n a b (omega arith)

pub drop_all : (n : ℕ) (a : Text) → length a ≤ n → drop n a ≡ []
drop_all zero [] h = refl
drop_all zero (x ∷ a) h = absurd (omega arith)
drop_all (suc n) [] h = refl
drop_all (suc n) (x ∷ a) h = drop_all n a (omega arith)
