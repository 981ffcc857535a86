-- ===== src/Ringbuffer/Write.antt =====
-- `ringbuffer_write` and `ringbuffer_readfd` of src/ringbuffer.c, seen by the readers.
use sighttpd.Prelude.{
  ℕ, ◌+◌, ◌-◌, ◌≤◌, ◌<◌, ◌≡◌, refl, ◌∙◌, ap, ap₂, sym, arith, some, Text, ◌++◌, ltb, length, take,
  drop, length-take, length-drop, Bool-cases, inl, inr, ltb→lt, lt→ltb,
}
use sighttpd.Memory.{copy, store_fits}
use sighttpd.Ringbuffer.{Ringbuffer, max_readers, avail}
use sighttpd.Ringbuffer.Circular.{
  wrap, mod-eq-wrap, circular, circular-add, copy_round, circular-copy_round,
  circular-copy_round_before,
}
use sighttpd.Ringbuffer.Valid.{IsValid, contents}
use sighttpd.Ringbuffer.Transfer.{write}

-- The buffer after `buf` is written to it.
abbrev pub written : Ringbuffer → Text → Ringbuffer
written r buf = record r {
  bytes = copy_round r.bytes r.size r.pwrite buf;
  pwrite = wrap r.size (r.pwrite + length buf);
}

write-written :
    (r : Ringbuffer) (buf : Text)
    → r.pwrite < r.size
    → length buf ≤ r.size
    → write r buf ≡ some (length buf, written r buf)
unfolding write copy_round
write-written r buf h k = elim (Bool-cases (ltb r.size (r.pwrite + length buf))) [
  | inl e ↦
      let round : r.size < r.pwrite + length buf = ltb→lt r.size (r.pwrite + length buf) e in
      let a = r.size - r.pwrite in
      let la : length (take a buf) ≡ a = omega (arith, length-take a buf) in
      let lb : length (drop a buf) ≡ length buf - a = length-drop a buf in
      rw (e, lt→ltb 0 a (omega arith))
        (rw
          (
            store_fits r.size r.bytes r.pwrite (take a buf) (omega arith),
            store_fits r.size (copy r.bytes r.pwrite (take a buf)) 0 (drop a buf) (omega arith),
            mod-eq-wrap (0 + length (drop a buf)) r.size (omega arith),
          )
          (ap
            (λ p. some (
              length buf,
              record r {
                bytes = copy (copy r.bytes r.pwrite (take a buf)) 0 (drop a buf);
                pwrite = p;
              },
            ))
            (ground (arith, lb))))
  | inr e ↦
      rw
        (
          e,
          store_fits r.size r.bytes r.pwrite buf (ground arith),
          mod-eq-wrap (r.pwrite + length buf) r.size (omega arith),
        )
        refl
]

module _ {r : Ringbuffer} (v : IsValid r) (buf : Text) where
  pub written-IsValid : length buf ≤ r.size → IsValid (written r buf)
  written-IsValid h = record {
    pwrite_in = ground (arith, v.pwrite_in);
    min_in = v.min_in;
    preads_in = v.preads_in;
  }

  pub avail-written :
      (i : ℕ)
      → i < max_readers
      → avail r i + length buf < r.size
      → avail (written r buf) i ≡ avail r i + length buf
  unfolding avail
  avail-written i q h = ground (arith, v.preads_in i q, v.pwrite_in)

  pwrite-avail : (i : ℕ) → i < max_readers → r.pwrite ≡ wrap r.size (r.pread i + avail r i)
  unfolding avail
  pwrite-avail i q = ground (arith, v.preads_in i q, v.pwrite_in)

  pub contents-written :
      (i : ℕ)
      → i < max_readers
      → avail r i + length buf < r.size
      → contents (written r buf) i ≡ contents r i ++ buf
  contents-written i q h =
      let pos = r.pread i in
      let n = avail r i in
      let pos_in = v.preads_in i q in
      let start = pwrite-avail i q in
      let bytes' = copy_round r.bytes r.size r.pwrite buf in
      let before : circular bytes' r.size pos n ≡ circular r.bytes r.size pos n =
        ap (λ w. circular (copy_round r.bytes r.size w buf) r.size pos n) start
        ∙ circular-copy_round_before r.bytes r.size pos n buf pos_in (omega arith) in
      let after : circular bytes' r.size (wrap r.size (pos + n)) (length buf) ≡ buf =
        ap (λ w. circular bytes' r.size w (length buf)) (sym start)
        ∙ circular-copy_round r.bytes r.size r.pwrite buf v.pwrite_in (omega arith) in
      ap (circular bytes' r.size pos) (avail-written i q h)
      ∙ circular-add bytes' r.size pos n (length buf) pos_in (omega arith)
      ∙ ap₂ (λ s t. s ++ t) before after

-- `ringbuffer_write` of at most as many bytes as the block has returns their number, stays in the
-- block and keeps every position in it; each reader that has room for them, that is fewer than
-- `size` bytes with them, then has them behind what it had.
pub write_lem :
    {r : Ringbuffer} (buf : Text)
    → IsValid r
    → length buf ≤ r.size
    → (s : Ringbuffer) × (write r buf ≡ some (length buf, s))
      × IsValid s
      × ((i : ℕ)
          → i < max_readers
          → avail r i + length buf < r.size
          → contents s i ≡ contents r i ++ buf)
write_lem {r} buf v h = (
  written r buf,
  write-written r buf v.pwrite_in h,
  written-IsValid v buf h,
  contents-written v buf,
)
