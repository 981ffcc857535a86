-- ===== src/Ringbuffer/Descriptors.antt =====
-- Which descriptor `ringbuffer_open` of src/ringbuffer.c gives, and how much room
-- `ringbuffer_update_min` and `ringbuffer_free` leave to the writer.
use sighttpd.Prelude.{
  ℕ, suc, zero, ◌+◌, ◌≤◌, ◌<◌, ◌≡◌, ◌≢◌, ◌⊎◌, refl, ◌∙◌, ap₂, arith, Bool, true, false, Option,
  none, some, [], ◌==◌, Bool-cases, inl, inr, ==_ne, ==_refl,
}
use sighttpd.Ringbuffer.{
  Ringbuffer, max_readers, avail, any_reader, scan_min, set_min, update_min, first_free,
  take_descriptor, open_reader, free,
}
use sighttpd.Ringbuffer.Circular.{circular, circular_zero}
use sighttpd.Ringbuffer.Valid.{IsValid, contents}

-- A descriptor in use below `n + i` and none in use between it and there.
record IsLast (readers : ℕ → Bool) (j end : ℕ) : Type 0 where
  pub below : j < end
  pub in_use : readers j ≡ true
  closed : (k : ℕ) → j < k → k < end → readers k ≡ false

scan_min_none :
    (r : Ringbuffer) (n i : ℕ) (m : Option ℕ)
    → ((k : ℕ) → i ≤ k → k < n + i → r.readers k ≡ false)
    → scan_min r 0 n i m ≡ m
unfolding scan_min
scan_min_none r zero i m h = refl
scan_min_none r (suc n) i m h =
    rw (h i (omega arith) (omega arith))
      (scan_min_none r n (suc i) m (λ k a b. h k (omega arith) (omega arith)))

scan_min_last :
    (r : Ringbuffer) (n i j : ℕ) (m : Option ℕ)
    → i ≤ j
    → IsLast r.readers j (n + i)
    → scan_min r 0 n i m ≡ some (r.pread j)
unfolding scan_min
scan_min_last r zero i j m a l = absurd (omega (arith, l.below))
scan_min_last r (suc n) i j m a l = elim (Bool-cases (i == j)) [
  | inl e ↦
      let same : i ≡ j = ground arith in
      let later : (k : ℕ) → suc i ≤ k → k < n + suc i → r.readers k ≡ false =
        λ k b c. l.closed k (omega arith) (omega arith) in
      scan_min_none r n (suc i) _ later ∙ rw same (rw l.in_use (ground arith))
  | inr e ↦ scan_min_last r n (suc i) j _ (ground arith) (record {
    below = omega (arith, l.below);
    in_use = l.in_use;
    closed = λ k b c. l.closed k b (omega arith);
  })
]

any_reader_open :
    (readers : ℕ → Bool) (n i j : ℕ)
    → i ≤ j
    → j < n + i
    → readers j ≡ true
    → any_reader readers n i ≡ true
unfolding any_reader
any_reader_open readers zero i j a b h = absurd (omega arith)
any_reader_open readers (suc n) i j a b h = elim (Bool-cases (i == j)) [
  | inl e ↦ let same : i ≡ j = ground arith in rw (same, h)
  | inr e ↦
      let rest = any_reader_open readers n (suc i) j (ground arith) (omega arith) h in
      rw rest (ground arith)
]

-- The room that `ringbuffer_free` finds after `ringbuffer_update_min` is what the open reader with
-- the highest descriptor leaves of the block, less the one byte that is kept free. So for a reader that
-- has more bytes waiting than that one, the room and its bytes do not fit the block together.
pub free-update_min :
    (r : Ringbuffer) (j : ℕ)
    → IsValid r
    → j < max_readers
    → r.readers j ≡ true
    → ((k : ℕ) → j < k → k < max_readers → r.readers k ≡ false)
    → (free (update_min r) + avail r j + 1 ≡ r.size)
      × ((i : ℕ) → avail r j < avail r i → r.size ≤ avail r i + free (update_min r))
unfolding update_min set_min free avail
free-update_min r j v h o c =
    let used = any_reader_open r.readers max_readers 0 j (omega arith) h o in
    let last =
      scan_min_last r max_readers 0 j none (omega arith)
        (record { below = h; in_use = o; closed = c }) in
    let room : free (update_min r) + avail r j + 1 ≡ r.size =
      rw (used, last) (ground (arith, v.preads_in j h, v.pwrite_in)) in
    (room, λ i less. omega (arith, room))

-- The descriptors from `i` up to `end` are in use.
abbrev pub AllOpen : (ℕ → Bool) → ℕ → ℕ → Type 0
AllOpen readers i end = (k : ℕ) → i ≤ k → k < end → readers k ≡ true

AllOpen-cons :
    (readers : ℕ → Bool) (i end : ℕ)
    → readers i ≡ true
    → AllOpen readers (suc i) end
    → AllOpen readers i end
AllOpen-cons readers i end h rest k a b = elim (Bool-cases (i == k)) [
  | inl e ↦ let same : i ≡ k = ground arith in rw (← same) h
  | inr e ↦ rest k (ground arith) b
]

-- The first descriptor from `i` up to `end` that is not in use.
pub record IsFirst (readers : ℕ → Bool) (i end j : ℕ) : Type 0 where
  pub above : i ≤ j
  pub below : j < end
  pub not_in_use : readers j ≡ false
  pub before : AllOpen readers i j

first_free-cases :
    (readers : ℕ → Bool) (n i : ℕ)
    → ((first_free readers n i ≡ none) × AllOpen readers i (n + i))
      ⊎ ((j : ℕ) × (first_free readers n i ≡ some j) × IsFirst readers i (n + i) j)
unfolding first_free
first_free-cases readers zero i = inl (refl, λ k a b. absurd (omega arith))
first_free-cases readers (suc n) i = elim (Bool-cases (readers i)) [
  | inr free ↦ rw free (
      inr (
        i,
        refl,
        record {
          above = omega arith;
          below = omega arith;
          not_in_use = free;
          before = λ k a b. absurd (omega arith);
        },
      ))
  | inl used ↦ rw used (elim (first_free-cases readers n (suc i)) [
    | inl (e, all) ↦
        inl (e, AllOpen-cons readers i (suc n + i) used (λ k a b. all k a (omega arith)))
    | inr (j, e, f) ↦ inr (
      j,
      e,
      record {
        above = omega (arith, f.above);
        below = omega (arith, f.below);
        not_in_use = f.not_in_use;
        before = AllOpen-cons readers i j used f.before;
      },
    )
  ])
]

-- What a client sees of `ringbuffer_open`: a descriptor that is now in use and has nothing to read,
-- while every other reads as before.
pub record Opened (r s : Ringbuffer) (i : ℕ) : Type 0 where
  pub in_use : s.readers i ≡ true
  pub nothing : contents s i ≡ []
  pub others : (j : ℕ) → j ≢ i → (contents s j ≡ contents r j) × (s.readers j ≡ r.readers j)

take_descriptor-Opened :
    (r : Ringbuffer) (i : ℕ) → IsValid r → Opened r (take_descriptor r (some i)).1 i
unfolding take_descriptor avail
take_descriptor-Opened r i v = record {
  in_use = rw (==_refl i);
  nothing =
      let s = (take_descriptor r (some i)).1 in
      let at_write : s.pread i ≡ r.pwrite = rw (==_refl i) in
      let none_left : avail s i ≡ 0 = ground arith in
      ap₂ (circular r.bytes r.size) at_write none_left
      ∙ circular_zero r.bytes r.size r.pwrite (omega (arith, v.pwrite_in));
  others = λ j m. rw (==_ne j i m) (refl, refl);
}

-- `ringbuffer_open` returns -1 and changes nothing exactly where all 16 descriptors are in use; else it
-- returns the first that is not, with nothing to read, and touches no other.
pub open_reader_lem :
    (r : Ringbuffer)
    → IsValid r
    → ((open_reader r ≡ (none, r)) × AllOpen r.readers 0 max_readers)
      ⊎ ((i : ℕ) × ((open_reader r).0 ≡ some i)
          × IsFirst r.readers 0 max_readers i
          × Opened r (open_reader r).1 i)
unfolding open_reader
open_reader_lem r v = elim (first_free-cases r.readers max_readers 0) [
  | inl (e, all) ↦ rw e (inl (unfold take_descriptor in refl, all))
  | inr (i, e, first) ↦
      rw e (inr (i, unfold take_descriptor in refl, first, take_descriptor-Opened r i v))
]
