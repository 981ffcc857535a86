-- ===== src/Memory.antt =====
-- A block of bytes as the C code reaches it: by offset, with `memcpy` in and out of it. An access
-- behind the block is `none`. Used for `data` of `struct ringbuffer` (src/ringbuffer.h).
use sighttpd.Prelude.{
  ℕ, suc, zero, ◌+◌, ◌≤◌, ◌<◌, ◌⊎◌, Text, Option, none, some, [], ◌∷◌, ◌++◌, ◌≡◌, refl, ◌∙◌, ap,
  ap₂, arith, if◌then◌else◌, ◌==◌, leb, length,
}

abbrev pub Memory : Type 0
Memory = ℕ → ℕ

abbrev pub poke : Memory → ℕ → ℕ → Memory
poke m i v j = if j == i then v else m j

-- The block after `memcpy` of a text to an offset.
unfoldable pub copy : Memory → ℕ → Text → Memory
copy m off [] = m
copy m off (b ∷ bs) = copy (poke m off b) (suc off) bs

-- The bytes at an offset.
unfoldable pub slice : Memory → ℕ → ℕ → Text
slice m off zero = []
slice m off (suc n) = m off ∷ slice m (suc off) n

unfoldable pub store : ℕ → Memory → ℕ → Text → Option Memory
store size m off bs = if leb (off + length bs) size then some (copy m off bs) else none

unfoldable pub load : ℕ → Memory → ℕ → ℕ → Option Text
load size m off n = if leb (off + n) size then some (slice m off n) else none

pub store_fits :
    (size : ℕ) (m : Memory) (off : ℕ) (bs : Text)
    → off + length bs ≤ size
    → store size m off bs ≡ some (copy m off bs)
unfolding store
store_fits size m off bs h = ground arith

pub store_overflow :
    (size : ℕ) (m : Memory) (off : ℕ) (bs : Text)
    → size < off + length bs
    → store size m off bs ≡ none
unfolding store
store_overflow size m off bs h = ground arith

pub load_fits :
    (size : ℕ) (m : Memory) (off n : ℕ) → off + n ≤ size → load size m off n ≡ some (slice m off n)
unfolding load
load_fits size m off n h = ground arith

pub length-slice : (m : Memory) (off n : ℕ) → length (slice m off n) ≡ n
unfolding slice
length-slice m off zero = refl
length-slice m off (suc n) = ap suc (length-slice m (suc off) n)

pub slice_congr : (m : Memory) (a b n k : ℕ) → a ≡ b → n ≡ k → slice m a n ≡ slice m b k
slice_congr m a b n k p q = ap₂ (slice m) p q

pub slice-add :
    (m : Memory) (off a b : ℕ) → slice m off (a + b) ≡ slice m off a ++ slice m (off + a) b
unfolding slice
slice-add m off zero b = slice_congr m off (off + 0) (0 + b) b (omega arith) (omega arith)
slice-add m off (suc a) b =
    slice_congr m off off (suc a + b) (suc (a + b)) refl (omega arith)
    ∙ ap (λ t. m off ∷ t)
        (slice-add m (suc off) a b
          ∙ ap (λ t. slice m (suc off) a ++ t)
              (slice_congr m (suc off + a) (off + suc a) b b (omega arith) refl))

-- What lies outside the bytes copied is as before.
pub copy_outside :
    (m : Memory) (off : ℕ) (bs : Text) (j : ℕ)
    → (j < off) ⊎ (off + length bs ≤ j)
    → copy m off bs j ≡ m j
unfolding copy
copy_outside m off [] j h = refl
copy_outside m off (b ∷ bs) j h =
    copy_outside (poke m off b) (suc off) bs j (ground arith) ∙ ground arith

pub slice-copy_outside :
    (m : Memory) (off : ℕ) (bs : Text) (a n : ℕ)
    → (a + n ≤ off) ⊎ (off + length bs ≤ a)
    → slice (copy m off bs) a n ≡ slice m a n
unfolding slice
slice-copy_outside m off bs a zero h = refl
slice-copy_outside m off bs a (suc n) h =
    ap₂ (λ x t. x ∷ t) (copy_outside m off bs a (omega arith))
      (slice-copy_outside m off bs (suc a) n (omega arith))

pub slice-copy : (m : Memory) (off : ℕ) (bs : Text) → slice (copy m off bs) off (length bs) ≡ bs
unfolding slice copy
slice-copy m off [] = refl
slice-copy m off (b ∷ bs) =
    ap₂ (λ x t. x ∷ t) (copy_outside (poke m off b) (suc off) bs off (omega arith) ∙ ground arith)
      (slice-copy (poke m off b) (suc off) bs)
