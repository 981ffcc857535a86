-- ===== src/Ringbuffer/Read.antt =====
-- `ringbuffer_read` of src/ringbuffer.c, and what it has in common with `ringbuffer_writefd`: bytes
-- leave the buffer in order.
use sighttpd.Prelude.{
  ℕ, ◌+◌, ◌-◌, ◌≤◌, ◌<◌, ◌≡◌, ◌≢◌, refl, ◌∙◌, ap, ap₂, sym, fun_ext, arith, some, Text, [], ◌++◌,
  ◌==◌, ltb, length, append_assoc, Bool-cases, inl, inr, ltb→lt, ltb→le, lt→ltb, ==_ne, ==_refl,
}
use sighttpd.Memory.{slice, load, load_fits, slice_congr}
use sighttpd.Ringbuffer.{Ringbuffer, max_readers, update, update_min, avail}
use sighttpd.Ringbuffer.Circular.{
  wrap, mod-eq-wrap, circular, circular_flat, circular_round, circular-add, length-circular,
}
use sighttpd.Ringbuffer.Valid.{
  IsValid, contents, avail-lt-size, update_pread-IsValid, update_min-IsValid, contents-update_min,
}
use sighttpd.Ringbuffer.Transfer.{read_rest, read, advance}

-- From `r` to `s` the reader `i` has been handed the bytes `sent` off the front of what it had, and
-- no other reader has lost or gained any.
pub record Took (r : Ringbuffer) (i : ℕ) (sent : Text) (s : Ringbuffer) : Type 0 where
  pub valid : IsValid s
  pub handed : sent ++ contents s i ≡ contents r i
  pub others : (j : ℕ) → j ≢ i → contents s j ≡ contents r j

pub Took-refl : (r : Ringbuffer) (i : ℕ) → IsValid r → Took r i [] r
Took-refl r i v = record { valid = v; handed = refl; others = λ j n. refl }

pub Took-append :
    {r q s : Ringbuffer} {i : ℕ} (a b : Text) → Took r i a q → Took q i b s → Took r i (a ++ b) s
Took-append {r} {q} {s} {i} a b t u = record {
  valid = u.valid;
  handed = append_assoc a b (contents s i) ∙ ap (λ c. a ++ c) u.handed ∙ t.handed;
  others = λ j n. u.others j n ∙ t.others j n;
}

pub Took-update_min :
    {r s : Ringbuffer} {i : ℕ} {a : Text} → Took r i a s → Took r i a (update_min s)
Took-update_min {r} {s} {i} {a} t = record {
  valid = update_min-IsValid s t.valid;
  handed = ap (λ c. a ++ c) (contents-update_min s i) ∙ t.handed;
  others = λ j n. contents-update_min s j ∙ t.others j n;
}

-- A descriptor's position moved by `n`.
abbrev moved : Ringbuffer → ℕ → ℕ → Ringbuffer
moved r i n = record r { pread = update r.pread i (wrap r.size (r.pread i + n)) }

module _ {r : Ringbuffer} (v : IsValid r) (i : ℕ) (q : i < max_readers) (n : ℕ)
    (h : n ≤ avail r i) where
  avail-moved : avail (moved r i n) i ≡ avail r i - n
  unfolding avail
  avail-moved = ground (arith, v.preads_in i q, v.pwrite_in)

  pread-moved : (moved r i n).pread i ≡ wrap r.size (r.pread i + n)
  pread-moved = rw (==_refl i)

  contents-moved_ne : (j : ℕ) → j ≢ i → contents (moved r i n) j ≡ contents r j
  unfolding avail
  contents-moved_ne j m = rw (==_ne j i m)

  Took-moved : Took r i (circular r.bytes r.size (r.pread i) n) (moved r i n)
  Took-moved = record {
    valid =
        update_pread-IsValid r i (wrap r.size (r.pread i + n)) v
          (ground (arith, v.preads_in i q, avail-lt-size i v q));
    handed =
        ap (λ c. circular r.bytes r.size (r.pread i) n ++ c)
          (ap₂ (circular r.bytes r.size) pread-moved avail-moved)
        ∙ sym (
            circular-add r.bytes r.size (r.pread i) n (avail r i - n) (v.preads_in i q)
              (omega (arith, avail-lt-size i v q)))
        ∙ ap (circular r.bytes r.size (r.pread i)) {y = avail r i} (omega arith);
    others = contents-moved_ne;
  }

  advance-moved : n ≢ 0 → advance r i n ≡ moved r i n
  advance-moved ne = rw (==_ne n 0 ne) (
      ap (λ p. record r { pread = update r.pread i p })
        (mod-eq-wrap (r.pread i + n) r.size (omega (arith, v.preads_in i q, avail-lt-size i v q))))

  pub avail-advance : n ≢ 0 → avail (advance r i n) i ≡ avail r i - n
  avail-advance ne = ap (λ s. avail s i) (advance-moved ne) ∙ avail-moved

  pub pread-advance : n ≢ 0 → (advance r i n).pread i ≡ wrap r.size (r.pread i + n)
  pread-advance ne = ap (λ (s : Ringbuffer). s.pread i) (advance-moved ne) ∙ pread-moved

  pub size-advance : (advance r i n).size ≡ r.size
  size-advance = ground arith

  module _ (fits : r.pread i + n ≤ r.size) where
    -- A position moved by what one system call took.
    pub Took-advance : Took r i (slice r.bytes (r.pread i) n) (advance r i n)
    Took-advance = elim (Bool-cases (n == 0)) [
      | inl z ↦
          let none_sent : slice r.bytes (r.pread i) n ≡ [] =
            slice_congr r.bytes (r.pread i) (r.pread i) n 0 refl (ground arith)
            ∙ unfold slice in refl in
          rw (z, none_sent) (Took-refl r i v)
      | inr nz ↦
          let ne : n ≢ 0 = ground arith in
          rw (advance-moved ne, ← circular_flat r.bytes r.size (r.pread i) n fits) Took-moved
    ]

    pub load-advance : load r.size r.bytes (r.pread i) n ≡ some (slice r.bytes (r.pread i) n)
    load-advance = load_fits r.size r.bytes (r.pread i) n fits

update-update : (f : ℕ → ℕ) (i a b : ℕ) → update (update f i a) i b ≡ update f i b
update-update f i a b = fun_ext (λ j. ground arith)

read_rest_lem :
    (a : Text) (n : ℕ) (r : Ringbuffer) (i : ℕ)
    → r.pread i < r.size
    → n ≤ r.size
    → r.pread i + n ≤ r.size
    → read_rest a n r i ≡ some (a ++ slice r.bytes (r.pread i) n, update_min (moved r i n))
unfolding read_rest
read_rest_lem a n r i p k h =
    rw (load_fits r.size r.bytes (r.pread i) n h, mod-eq-wrap (r.pread i + n) r.size (omega arith))

read-moved :
    {r : Ringbuffer} (v : IsValid r) (i : ℕ) (q : i < max_readers) (n : ℕ)
    → n ≤ r.size
    → read r i n ≡ some (circular r.bytes r.size (r.pread i) n, update_min (moved r i n))
unfolding read
read-moved {r} v i q n h =
    let pos = r.pread i in
    let pos_in = v.preads_in i q in
    elim (Bool-cases (ltb r.size (pos + n))) [
      | inr e ↦
          let flat = ltb→le r.size (pos + n) e in
          let all : n - 0 ≡ n = omega arith in
          rw (e, all)
            (read_rest_lem [] n r i pos_in h flat
              ∙ rw (← circular_flat r.bytes r.size pos n flat) refl)
      | inl e ↦
          let round = ltb→lt r.size (pos + n) e in
          let a = r.size - pos in
          let q' = record r { pread = update r.pread i 0 } in
          let start : q'.pread i ≡ 0 = rw (==_refl i) in
          let rest : n - a ≡ pos + n - r.size = omega arith in
          let same : wrap r.size (q'.pread i + (n - a)) ≡ wrap r.size (pos + n) = ground arith in
          rw (e, lt→ltb 0 a (omega arith), load_fits r.size r.bytes pos a (omega arith))
            (read_rest_lem (slice r.bytes pos a) (n - a) q' i (omega arith) (omega arith)
                (omega arith)
              ∙ ap₂ (λ t p. some (t, update_min (record r { pread = p })))
                  (ap₂ (λ s m. slice r.bytes pos a ++ slice r.bytes s m) start rest
                    ∙ sym (circular_round r.bytes r.size pos n (omega arith) (omega arith)))
                  (update-update r.pread i 0 (wrap r.size (q'.pread i + (n - a)))
                    ∙ ap (update r.pread i) same))
    ]

-- `ringbuffer_read` of at most as many bytes as wait for the reader stays in the block and returns
-- the first of them, in order; the rest still waits, and no other reader is touched.
pub read_lem :
    {r : Ringbuffer} (i n : ℕ)
    → IsValid r
    → i < max_readers
    → n ≤ avail r i
    → (sent : Text) × (s : Ringbuffer) × (read r i n ≡ some (sent, s))
      × (length sent ≡ n)
      × Took r i sent s
read_lem {r} i n v q h =
    let t = circular r.bytes r.size (r.pread i) n in
    (
      t,
      update_min (moved r i n),
      read-moved v i q n (omega (arith, avail-lt-size i v q)),
      length-circular r.bytes r.size (r.pread i) n (omega (arith, v.preads_in i q)),
      Took-update_min (Took-moved v i q n h),
    )
