-- ===== src/Ringbuffer/Valid.antt =====
-- The invariant of `struct ringbuffer` (src/ringbuffer.h), what a reader's descriptor stands for,
-- and the operations that only move positions.
use sighttpd.Prelude.{
  ℕ, suc, zero, ◌+◌, ◌<◌, ◌≡◌, refl, ap, arith, false, Option, none, some, Text, [], leb, length,
  lt→ltb, Bool-cases, inl, inr,
}
use sighttpd.Ringbuffer.{
  Ringbuffer, max_readers, update, avail, has_readers, any_reader, scan_min, set_min, update_min,
  init, first_free, take_descriptor, open_reader, close_reader, flush,
}
use sighttpd.Ringbuffer.Circular.{circular, circular_zero, length-circular}

-- Every position lies in the block.
pub record IsValid (r : Ringbuffer) : Type 0 where
  pub pwrite_in : r.pwrite < r.size
  pub min_in : r.min_pread < r.size
  pub preads_in : (i : ℕ) → i < max_readers → r.pread i < r.size

-- The bytes that wait for a reader, oldest first.
abbrev pub contents : Ringbuffer → ℕ → Text
contents r i = circular r.bytes r.size (r.pread i) (avail r i)

pub avail-lt-size : {r : Ringbuffer} (i : ℕ) → IsValid r → i < max_readers → avail r i < r.size
unfolding avail
avail-lt-size {r} i v h = ground (arith, v.preads_in i h)

pub length-contents :
    {r : Ringbuffer} (i : ℕ) → IsValid r → i < max_readers → length (contents r i) ≡ avail r i
length-contents {r} i v h =
    length-circular r.bytes r.size (r.pread i) (avail r i) (omega (arith, v.preads_in i h))

scan_min_in :
    (r : Ringbuffer) (above n i : ℕ) (m : Option ℕ) (k : ℕ)
    → IsValid r
    → n + i ≡ max_readers
    → ((j : ℕ) → m ≡ some j → j < r.size)
    → scan_min r above n i m ≡ some k
    → k < r.size
unfolding scan_min
scan_min_in r above zero i m k v e h q = h k q
scan_min_in r above (suc n) i m k v e h q =
    scan_min_in r above n (suc i) _ k v (omega arith)
      (λ j p. ground (arith, h j, v.preads_in i (omega arith))) q

-- `ringbuffer_update_min` changes nothing but `min_pread`.
pub record SameButMin (r s : Ringbuffer) : Type 0 where
  pub same_pread : s.pread ≡ r.pread
  pub same_pwrite : s.pwrite ≡ r.pwrite
  pub same_bytes : s.bytes ≡ r.bytes
  pub same_size : s.size ≡ r.size
  pub same_readers : s.readers ≡ r.readers

set_min-SameButMin : (r : Ringbuffer) (m : Option ℕ) → SameButMin r (set_min r m)
unfolding set_min
set_min-SameButMin r none = record {
  same_pread = refl;
  same_pwrite = refl;
  same_bytes = refl;
  same_size = refl;
  same_readers = refl;
}
set_min-SameButMin r (some m) = record {
  same_pread = refl;
  same_pwrite = refl;
  same_bytes = refl;
  same_size = refl;
  same_readers = refl;
}

pub update_min-SameButMin : (r : Ringbuffer) → SameButMin r (update_min r)
unfolding update_min set_min
update_min-SameButMin r = elim (Bool-cases (has_readers r)) [
  | inr e ↦ rw e (set_min-SameButMin r none)
  | inl e ↦ rw e (set_min-SameButMin r (scan_min r 0 max_readers 0 none))
]

module _ {r s : Ringbuffer} (same : SameButMin r s) (i : ℕ) where
  avail_congr : avail s i ≡ avail r i
  unfolding avail
  avail_congr =
      ground (arith, ap (λ (f : ℕ → ℕ). f i) same.same_pread, same.same_pwrite, same.same_size)

  pub contents_congr : contents s i ≡ contents r i
  contents_congr =
      cc (avail_congr, ap (λ (f : ℕ → ℕ). f i) same.same_pread, same.same_bytes, same.same_size)

-- A reader's bytes do not depend on `min_pread`.
pub contents-update_min : (r : Ringbuffer) (i : ℕ) → contents (update_min r) i ≡ contents r i
contents-update_min r i = contents_congr (update_min-SameButMin r) i

set_min-IsValid :
    (r : Ringbuffer) (m : Option ℕ)
    → IsValid r
    → ((j : ℕ) → m ≡ some j → j < r.size)
    → IsValid (set_min r m)
unfolding set_min
set_min-IsValid r none v h = v
set_min-IsValid r (some m) v h = record {
  pwrite_in = v.pwrite_in;
  min_in = h m refl;
  preads_in = v.preads_in;
}

-- `ringbuffer_update_min` leaves every position in the block.
pub update_min-IsValid : (r : Ringbuffer) → IsValid r → IsValid (update_min r)
unfolding update_min
update_min-IsValid r v = elim (Bool-cases (has_readers r)) [
  | inr e ↦ rw e v
  | inl e ↦ rw e (
      set_min-IsValid r (scan_min r 0 max_readers 0 none) v
        (λ k q. scan_min_in r 0 max_readers 0 none k v refl (λ j p. absurd (cc)) q))
]

pub update_pread-IsValid :
    (r : Ringbuffer) (readd pos : ℕ)
    → IsValid r
    → pos < r.size
    → IsValid (record r { pread = update r.pread readd pos })
update_pread-IsValid r readd pos v h = record {
  pwrite_in = v.pwrite_in;
  min_in = v.min_in;
  preads_in = λ i q. ground (arith, v.preads_in i q);
}

-- A buffer that `ringbuffer_init` has set up over a block that is not empty has all its positions
-- in the block, no reader, and nothing in it for any descriptor.
pub init_lem :
    (r : Ringbuffer) (len : ℕ)
    → 0 < len
    → IsValid (init r len)
      × (has_readers (init r len) ≡ false)
      × ((i : ℕ) → i < max_readers → contents (init r len) i ≡ [])
unfolding init avail any_reader
init_lem r len h = (
  record { pwrite_in = h; min_in = h; preads_in = λ i q. ground arith },
  refl,
  λ i q. rw (lt→ltb i max_readers q) (circular_zero _ len 0 (omega arith)),
)

take_descriptor-IsValid :
    (r : Ringbuffer) (o : Option ℕ) → IsValid r → IsValid (take_descriptor r o).1
unfolding take_descriptor
take_descriptor-IsValid r none v = v
take_descriptor-IsValid r (some i) v = record {
  pwrite_in = v.pwrite_in;
  min_in = v.min_in;
  preads_in = λ j q. ground (arith, v.preads_in j q);
}

close_reader-IsValid : (r : Ringbuffer) (readd : ℕ) → IsValid r → IsValid (close_reader r readd)
unfolding close_reader
close_reader-IsValid r readd v = elim (Bool-cases (leb max_readers readd)) [
  | inl e ↦ rw e v
  | inr e ↦ rw e (
      update_min-IsValid _
        (record { pwrite_in = v.pwrite_in; min_in = v.min_in; preads_in = v.preads_in }))
]

-- Opening, closing and flushing a descriptor leave every position in the block.
pub descriptors-IsValid :
    (r : Ringbuffer) (readd : ℕ)
    → IsValid r
    → IsValid (open_reader r).1 × IsValid (close_reader r readd) × IsValid (flush r readd)
unfolding open_reader flush
descriptors-IsValid r readd v = (
  take_descriptor-IsValid r (first_free r.readers max_readers 0) v,
  close_reader-IsValid r readd v,
  update_min-IsValid _ (update_pread-IsValid r readd r.pwrite v v.pwrite_in),
)
