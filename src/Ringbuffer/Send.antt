-- ===== src/Ringbuffer/Send.antt =====
-- `ringbuffer_writefd` of src/ringbuffer.c, for any answers of write(2).
use sighttpd.Prelude.{
  ℕ, ◌+◌, ◌-◌, ◌≤◌, ◌<◌, ◌≡◌, ◌≢◌, ◌⊎◌, refl, ap, sym, arith, Option, none, some, Text, [], ◌++◌,
  ◌==◌, ltb, length, length-append, Bool-cases, Option-cases, inl, inr, ltb→lt, ltb→le, lt→ltb,
  ==_iff,
}
use sighttpd.Memory.{slice, length-slice}
use sighttpd.Ringbuffer.{Ringbuffer, max_readers, update_min, avail}
use sighttpd.Ringbuffer.Valid.{IsValid, avail-lt-size}
use sighttpd.Ringbuffer.Transfer.{advance, writefd_rest, writefd_after, writefd}
use sighttpd.Ringbuffer.Read.{
  Took, Took-refl, Took-append, Took-update_min, Took-advance, load-advance, avail-advance,
  pread-advance, size-advance,
}

second_fits :
    {r : Ringbuffer} (v : IsValid r) (i : ℕ) (q : i < max_readers) (k : ℕ) (h : k ≤ avail r i)
    → r.pread i + k ≤ r.size
    → (n : ℕ) → n ≤ avail r i - k
    → k ≢ 0
    → k ≡ r.size - r.pread i
    → (n ≤ avail (advance r i k) i) × ((advance r i k).pread i + n ≤ (advance r i k).size)
second_fits {r} v i q k h f n few ne all =
    rw (avail-advance v i q k h ne, pread-advance v i q k h ne, size-advance v i q k h)
      (few, ground (arith, avail-lt-size i v q))

-- A result for the bytes handed over: their number, or -1.
abbrev pub Returned : Option ℕ → Text → Type 0
Returned result sent = (result ≡ none) ⊎ (result ≡ some (length sent))

-- An answer of `write(2)` is at most what was asked for.
abbrev pub IsWrite : (ℕ → Option ℕ) → Type 0
IsWrite w = (n k : ℕ) → w n ≡ some k → k ≤ n

abbrev pub Served : Ringbuffer → ℕ → Option (Option ℕ × Text × Ringbuffer) → Type 0
Served r i outcome =
    (result : Option ℕ) × (sent : Text) × (s : Ringbuffer) × (outcome ≡ some (result, sent, s))
    × Took r i sent s
    × Returned result sent

writefd_rest-Served :
    {r : Ringbuffer} {i : ℕ} (o : Option ℕ) (nwritten : ℕ) (a : Text) (q : Ringbuffer)
    → i < max_readers
    → nwritten ≡ length a
    → Took r i a q
    → ((n : ℕ) → o ≡ some n → (n ≤ avail q i) × (q.pread i + n ≤ q.size))
    → Served r i (writefd_rest o nwritten a q i)
unfolding writefd_rest
writefd_rest-Served none m a q h c t k = (none, a, q, refl, t, inl refl)
writefd_rest-Served {i = i} (some n) m a q h c t k =
    let (few, fits) = k n refl in
    let b = slice q.bytes (q.pread i) n in
    (
      some (m + n),
      a ++ b,
      update_min (advance q i n),
      rw (load-advance t.valid i h n few fits),
      Took-update_min (Took-append a b t (Took-advance t.valid i h n few fits)),
      inr (ap some (omega (arith, length-append a b, length-slice q.bytes (q.pread i) n))),
    )

writefd_after-Served :
    {r : Ringbuffer} (v : IsValid r) (second : ℕ → Option ℕ) (i : ℕ) (q : i < max_readers)
    → IsWrite second
    → (k : ℕ) (less : k ≤ avail r i) (fits : r.pread i + k ≤ r.size) → 0 < r.size - r.pread i
    → Served r i (
        writefd_after second
          (avail r i)
          (r.size - r.pread i)
          k
          (slice r.bytes (r.pread i) k)
          (advance r i k)
          i)
unfolding writefd_after
writefd_after-Served {r} v second i q w k less fits pos =
    let sent = slice r.bytes (r.pread i) k in
    let count : k ≡ length sent = sym (length-slice r.bytes (r.pread i) k) in
    let t = Took-advance v i q k less fits in
    elim (Bool-cases (k == r.size - r.pread i)) [
      | inr short ↦
          rw short
            (some k, sent, update_min (advance r i k), refl, Took-update_min t, inr (ap some count))
      | inl whole ↦
          let all : k ≡ r.size - r.pread i = (==_iff k (r.size - r.pread i)).0 whole in
          rw whole (
            writefd_rest-Served (second (avail r i - k)) k sent (advance r i k) q count t
              (λ n p. second_fits v i q k less fits n (w (avail r i - k) n p) (omega arith) all))
    ]

-- `ringbuffer_writefd` stays in the block, whatever the socket accepts of what it is offered: the
-- bytes handed over are the first that waited for the reader, in order, the rest still waits, and
-- no other reader is touched. The result is their number or -1.
pub writefd_lem :
    {r : Ringbuffer} (first second : ℕ → Option ℕ) (i : ℕ)
    → IsValid r
    → i < max_readers
    → IsWrite first
    → IsWrite second
    → Served r i (writefd first second r i)
unfolding writefd
writefd_lem {r} first second i v q w₁ w₂ = elim (Bool-cases (avail r i == 0)) [
  | inl e ↦ rw e (some 0, [], r, refl, Took-refl r i v, inr refl)
  | inr e ↦ elim (Bool-cases (ltb r.size (r.pread i + avail r i))) [
    | inr f ↦
        rw (e, f)
          (writefd_rest-Served (second (avail r i)) 0 [] r q refl (Took-refl r i v)
            (λ n p. (w₂ _ n p, omega (arith, w₂ _ n p, ltb→le r.size (r.pread i + avail r i) f))))
    | inl f ↦
        let round = ltb→lt r.size (r.pread i + avail r i) f in
        let split = r.size - r.pread i in
        let pos_in = v.preads_in i q in
        rw (e, f, lt→ltb 0 split (omega arith))
          (elim (Option-cases (first split)) [
            | inl g ↦ rw g (none, [], r, refl, Took-refl r i v, inl refl)
            | inr (k, g) ↦
                let few : k ≤ split = w₁ split k g in
                let fits : r.pread i + k ≤ r.size = omega arith in
                let less : k ≤ avail r i = omega arith in
                rw (g, load-advance v i q k less fits)
                  (rw f (writefd_after-Served v second i q w₂ k less fits (omega arith)))
          ])
  ]
]
