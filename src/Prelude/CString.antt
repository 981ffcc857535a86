-- ===== src/Prelude/CString.antt =====
-- C strings as the list of their bytes before the NUL, and what the source uses of <string.h>,
-- <strings.h> and <ctype.h>.
use Prim.Native.Nat.{ℕ, zero, suc, ◌+◌, ◌≤◌}
use Prim.Native.Char.{code}
use Prim.Native.String.{String}
use mathlib.Core.Path.{◌≡◌, refl}
use mathlib.Core.Bool.{Bool, true, false, ◌&&◌, ◌||◌}
use mathlib.Core.List.{List, [], ◌∷◌, ◌++◌}
use native.Mathlib.Omega.{arith}
use sighttpd.Prelude.Tests.{leb, ◌==◌, if◌then◌else◌}
use sighttpd.Prelude.Lists.{All, length}

abbrev pub Text : Type 0
Text = List ℕ

-- The code points of a literal, which are its bytes when it is ASCII.
abbrev pub codes : String → Text
codes String.[] = []
codes (String.◌∷◌ c s) = code c ∷ codes s

-- Whether a byte is one of a set.
abbrev pub one_of : Text → ℕ → Bool
one_of [] c = false
one_of (d ∷ ds) c = (c == d) || one_of ds c

-- `strcspn(s, set)` and `strspn(s, set)`
unfoldable pub strcspn : Text → Text → ℕ
strcspn [] set = 0
strcspn (c ∷ s) set = if one_of set c then 0 else suc (strcspn s set)

unfoldable pub strspn : Text → Text → ℕ
strspn [] set = 0
strspn (c ∷ s) set = if one_of set c then suc (strspn s set) else 0

-- `!strncmp(a, b, n)`: the two agree up to the first NUL or up to `n` bytes.
unfoldable pub strn_eq : Text → Text → ℕ → Bool
strn_eq a b zero = true
strn_eq [] [] (suc n) = true
strn_eq [] (d ∷ b) (suc n) = false
strn_eq (c ∷ a) [] (suc n) = false
strn_eq (c ∷ a) (d ∷ b) (suc n) = (c == d) && strn_eq a b n

unfoldable pub tolower : ℕ → ℕ
tolower c = if leb b'A' c && leb c b'Z' then c + 32 else c

-- The text of `for (c=s; *c; c++) *c = tolower(*c);`.
unfoldable pub lower : Text → Text
lower [] = []
lower (c ∷ s) = tolower c ∷ lower s

unfoldable pub text_eq : Text → Text → Bool
text_eq [] [] = true
text_eq [] (d ∷ b) = false
text_eq (c ∷ a) [] = false
text_eq (c ∷ a) (d ∷ b) = (c == d) && text_eq a b

-- `!strcasecmp(a, b)`
unfoldable pub strcase_eq : Text → Text → Bool
strcase_eq a b = text_eq (lower a) (lower b)

pub text_eq_refl : (a : Text) → text_eq a a ≡ true
unfolding text_eq
text_eq_refl [] = refl
text_eq_refl (c ∷ a) = ground (arith, text_eq_refl a)

pub text_eq_sound : (a b : Text) → text_eq a b ≡ true → a ≡ b
unfolding text_eq
text_eq_sound [] [] h = refl
text_eq_sound [] (d ∷ b) h = ground arith
text_eq_sound (c ∷ a) [] h = ground arith
text_eq_sound (c ∷ a) (d ∷ b) h = ground (arith, text_eq_sound a b)

pub text_eq_symm : (a b : Text) → text_eq a b ≡ text_eq b a
unfolding text_eq
text_eq_symm [] [] = refl
text_eq_symm [] (d ∷ b) = refl
text_eq_symm (c ∷ a) [] = refl
text_eq_symm (c ∷ a) (d ∷ b) = ground (arith, text_eq_symm a b)

-- Keys that differ in case only are interchangeable.
pub strcase_eq_symm : (a b : Text) → strcase_eq a b ≡ strcase_eq b a
unfolding strcase_eq
strcase_eq_symm a b = text_eq_symm (lower a) (lower b)

pub strcase_eq_refl : (a : Text) → strcase_eq a a ≡ true
unfolding strcase_eq
strcase_eq_refl a = text_eq_refl (lower a)

pub strcase_eq_congr : (a b c : Text) → strcase_eq a b ≡ true → strcase_eq a c ≡ strcase_eq b c
unfolding strcase_eq
strcase_eq_congr a b c h = rw (text_eq_sound (lower a) (lower b) h)

pub strcase_eq_congr_right :
    (a b c : Text) → strcase_eq a b ≡ true → strcase_eq c a ≡ strcase_eq c b
unfolding strcase_eq
strcase_eq_congr_right a b c h = rw (text_eq_sound (lower a) (lower b) h)

-- No byte of the text is in the set; the first byte is not in it.
abbrev pub Avoids : Text → Text → Type 0
Avoids set = All (λ c. one_of set c ≡ false)

abbrev pub StartsOutside : Text → Text → Type 0
StartsOutside set [] = Unit
StartsOutside set (c ∷ s) = one_of set c ≡ false

-- The text ends, or its first byte is in the set.
abbrev pub StartsInside : Text → Text → Type 0
StartsInside set [] = Unit
StartsInside set (c ∷ s) = one_of set c ≡ true

pub strcspn-append :
    (a b set : Text) → Avoids set a → StartsInside set b → strcspn (a ++ b) set ≡ length a
unfolding strcspn
strcspn-append [] [] set h k = refl
strcspn-append [] (d ∷ b) set h k = ground arith
strcspn-append (c ∷ a) b set (hc, h) k = rw (hc, strcspn-append a b set h k)

pub strspn-append :
    (a b set : Text)
    → All (λ c. one_of set c ≡ true) a
    → StartsOutside set b
    → strspn (a ++ b) set ≡ length a
unfolding strspn
strspn-append [] [] set h k = refl
strspn-append [] (d ∷ b) set h k = ground arith
strspn-append (c ∷ a) b set (hc, h) k = rw (hc, strspn-append a b set h k)

pub strcspn_le : (a set : Text) → strcspn a set ≤ length a
unfolding strcspn
strcspn_le [] set = omega arith
strcspn_le (c ∷ a) set = ground (arith, strcspn_le a set)
