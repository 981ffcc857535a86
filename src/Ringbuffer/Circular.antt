-- ===== src/Ringbuffer/Circular.antt =====
-- The bytes of a block read round its end, and how they change when bytes are stored round its end:
-- the arithmetic that the functions of src/ringbuffer.c share.
use native.Mathlib.Nat.{mod-eq_of_lt, mod-eq-sub-mod}
use sighttpd.Prelude.{
  ℕ, ◌+◌, ◌-◌, ◌%◌, ◌≤◌, ◌<◌, ◌≡◌, refl, ◌∙◌, ap, ap₂, sym, arith, inl, inr, ◌⊎◌, Bool-cases, Text,
  [], ◌++◌, if◌then◌else◌, ltb, leb, length, take, drop, length-take, length-drop, take-append-drop,
  append_assoc, append-nil, length-append, ltb→lt,
}
use sighttpd.Memory.{
  Memory, slice, copy, length-slice, slice_congr, slice-add, slice-copy_outside, slice-copy,
}

-- A position moved by less than two rounds.
abbrev pub wrap : ℕ → ℕ → ℕ
wrap size a = if ltb a size then a else a - size

pub mod-eq-wrap : (a size : ℕ) → a < size + size → a % size ≡ wrap size a
mod-eq-wrap a size h = elim (Bool-cases (ltb a size)) [
  | inl e ↦ rw e (mod-eq_of_lt (ltb→lt a size e))
  | inr e ↦ rw e (
      mod-eq-sub-mod {n = a} {m = size} (ground arith)
      ∙ mod-eq_of_lt {n = a - size} {m = size} (ground arith))
]

-- The `n` bytes from `pos` on, going round.
unfoldable pub circular : Memory → ℕ → ℕ → ℕ → Text
circular m size pos n =
    if leb (pos + n) size
    then slice m pos n
    else slice m pos (size - pos) ++ slice m 0 (pos + n - size)

pub circular_flat :
    (m : Memory) (size pos n : ℕ) → pos + n ≤ size → circular m size pos n ≡ slice m pos n
unfolding circular
circular_flat m size pos n h = ground arith

pub circular_round :
    (m : Memory) (size pos n : ℕ)
    → pos ≤ size
    → size ≤ pos + n
    → circular m size pos n ≡ slice m pos (size - pos) ++ slice m 0 (pos + n - size)
unfolding circular
circular_round m size pos n h k = elim (Bool-cases (leb (pos + n) size)) [
  | inl e ↦ rw e (
      sym (append-nil (slice m pos n))
      ∙ ap₂ (λ a b. a ++ b) (slice_congr m pos pos n (size - pos) refl (ground arith))
          (unfold slice in slice_congr m 0 0 0 (pos + n - size) refl (ground arith)))
  | inr e ↦ rw e
]

pub circular_zero : (m : Memory) (size pos : ℕ) → pos ≤ size → circular m size pos 0 ≡ []
circular_zero m size pos h = circular_flat m size pos 0 (omega arith) ∙ unfold slice in refl

pub length-circular :
    (m : Memory) (size pos n : ℕ) → pos ≤ size → length (circular m size pos n) ≡ n
unfolding circular
length-circular m size pos n h = ground (
  arith,
  length-slice m pos n,
  length-append (slice m pos (size - pos)) (slice m 0 (pos + n - size)),
  length-slice m pos (size - pos),
  length-slice m 0 (pos + n - size),
)

-- Reading on from where a read ended gives the bytes that follow.
pub circular-add :
    (m : Memory) (size pos a b : ℕ)
    → pos < size
    → a + b ≤ size
    → circular m size pos (a + b) ≡ circular m size pos a ++ circular m size (wrap size (pos + a)) b
circular-add m size pos a b h k = elim (Bool-cases (ltb (pos + a) size)) [
  | inl e ↦
      let inside : pos + a < size = ltb→lt (pos + a) size e in
      rw (e, circular_flat m size pos a (omega arith))
        (elim (Bool-cases (leb (pos + (a + b)) size)) [
          | inl f ↦
              circular_flat m size pos (a + b) (ground arith)
              ∙ slice-add m pos a b
              ∙ ap (λ t. slice m pos a ++ t) (sym (circular_flat m size (pos + a) b (ground arith)))
          | inr f ↦
              circular_round m size pos (a + b) (omega arith) (ground arith)
              ∙ ap₂ (λ u v. u ++ v)
                  (slice_congr m pos pos (size - pos) (a + (size - (pos + a))) refl (omega arith)
                    ∙ slice-add m pos a (size - (pos + a)))
                  (slice_congr m 0 0 (pos + (a + b) - size) (pos + a + b - size) refl (omega arith))
              ∙ append_assoc (slice m pos a) _ _
              ∙ ap (λ t. slice m pos a ++ t)
                  (sym (circular_round m size (pos + a) b (omega arith) (ground arith)))
        ])
  | inr e ↦
      let outside : size ≤ pos + a = ground arith in
      rw (e, circular_round m size pos a (omega arith) outside)
        (circular_round m size pos (a + b) (omega arith) (omega arith)
          ∙ ap (λ t. slice m pos (size - pos) ++ t)
              (slice_congr m 0 0 (pos + (a + b) - size) (pos + a - size + b) refl (omega arith)
                ∙ slice-add m 0 (pos + a - size) b
                ∙ ap (λ t. slice m 0 (pos + a - size) ++ t)
                    (slice_congr m (0 + (pos + a - size)) (pos + a - size) b b (omega arith) refl
                      ∙ sym (circular_flat m size (pos + a - size) b (omega arith))))
          ∙ sym (append_assoc (slice m pos (size - pos)) _ _))
]

-- The block after `buf` is stored from `pos` on, going round.
unfoldable pub copy_round : Memory → ℕ → ℕ → Text → Memory
copy_round m size pos buf =
    if ltb size (pos + length buf)
    then copy (copy m pos (take (size - pos) buf)) 0 (drop (size - pos) buf)
    else copy m pos buf

-- What is stored round the end is read round the end.
pub circular-copy_round :
    (m : Memory) (size pos : ℕ) (buf : Text)
    → pos < size
    → length buf ≤ size
    → circular (copy_round m size pos buf) size pos (length buf) ≡ buf
unfolding copy_round
circular-copy_round m size pos buf h k = elim (Bool-cases (ltb size (pos + length buf))) [
  | inr e ↦
      rw e
        (circular_flat (copy m pos buf) size pos (length buf) (ground arith) ∙ slice-copy m pos buf)
  | inl e ↦
      let t = take (size - pos) buf in
      let d = drop (size - pos) buf in
      let round : size < pos + length buf = ltb→lt size (pos + length buf) e in
      let lt : length t ≡ size - pos = omega (arith, length-take (size - pos) buf) in
      let ld : length d ≡ pos + length buf - size = omega (arith, length-drop (size - pos) buf) in
      let m₁ = copy m pos t in
      rw e (
        circular_round (copy m₁ 0 d) size pos (length buf) (omega arith) (omega arith)
        ∙ ap₂ (λ u v. u ++ v)
            (slice-copy_outside m₁ 0 d pos (size - pos) (inr (omega arith))
              ∙ slice_congr m₁ pos pos (size - pos) (length t) refl (sym lt)
              ∙ slice-copy m pos t)
            (slice_congr (copy m₁ 0 d) 0 0 (pos + length buf - size) (length d) refl (sym ld)
              ∙ slice-copy m₁ 0 d)
        ∙ take-append-drop (size - pos) buf)
]

slice-copy_round :
    (m : Memory) (size pos : ℕ) (buf : Text) (a n : ℕ)
    → pos < size
    → length buf ≤ size
    → a + n ≤ size
    → (pos + length buf ≤ a) ⊎ ((a + n ≤ pos) × (pos + length buf ≤ size + a))
    → slice (copy_round m size pos buf) a n ≡ slice m a n
unfolding copy_round
slice-copy_round m size pos buf a n h k l o = elim (Bool-cases (ltb size (pos + length buf))) [
  | inr e ↦ rw e (slice-copy_outside m pos buf a n (omega arith))
  | inl e ↦
      let round : size < pos + length buf = ltb→lt size (pos + length buf) e in
      let t = take (size - pos) buf in
      let d = drop (size - pos) buf in
      rw e (
        slice-copy_outside (copy m pos t) 0 d a n
          (inr (omega (arith, length-drop (size - pos) buf)))
        ∙ slice-copy_outside m pos t a n (inl (omega arith)))
]

-- Bytes that end where the stored ones begin, and do not reach round to them, are as before.
pub circular-copy_round_before :
    (m : Memory) (size pos n : ℕ) (buf : Text)
    → pos < size
    → n + length buf ≤ size
    → circular (copy_round m size (wrap size (pos + n)) buf) size pos n ≡ circular m size pos n
circular-copy_round_before m size pos n buf h k = elim (Bool-cases (ltb (pos + n) size)) [
  | inl e ↦
      let inside : pos + n < size = ltb→lt (pos + n) size e in
      rw e (
        circular_flat (copy_round m size (pos + n) buf) size pos n (omega arith)
        ∙ slice-copy_round m size (pos + n) buf pos n inside (omega arith) (omega arith)
            (inr (omega arith, omega arith))
        ∙ sym (circular_flat m size pos n (omega arith)))
  | inr e ↦
      let outside : size ≤ pos + n = ground arith in
      let w = pos + n - size in
      rw e (
        circular_round (copy_round m size w buf) size pos n (omega arith) outside
        ∙ ap₂ (λ u v. u ++ v)
            (slice-copy_round m size w buf pos (size - pos) (omega arith) (omega arith)
              (omega arith) (inl (omega arith)))
            (slice-copy_round m size w buf 0 w (omega arith) (omega arith) (omega arith)
              (inr (omega arith, omega arith)))
        ∙ sym (circular_round m size pos n (omega arith) outside))
]
