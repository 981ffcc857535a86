-- ===== src/Ringbuffer/Transfer.antt =====
-- How bytes go into and out of the buffer of src/ringbuffer.c. A system call is a function from the
-- number of bytes asked for to its answer.
use sighttpd.Prelude.{
  ℕ, ◌+◌, ◌-◌, ◌%◌, Option, none, some, Text, [], ◌∷◌, ◌++◌, if◌then◌else◌, ◌==◌, ltb, ◌>>=◌,
  length, take, drop,
}
use sighttpd.Memory.{store, load}
use sighttpd.Ringbuffer.{Ringbuffer, update, update_min, avail, free}

-- The part of a transfer of `len` bytes at `pos` that ends with the block, if it goes round.
abbrev pub split_at : ℕ → ℕ → ℕ → ℕ
split_at size pos len = if ltb size (pos + len) then size - pos else 0

-- `memcpy` to `data + pwrite`, and the new write position `pwrite`.
abbrev pub store_at : Ringbuffer → Text → ℕ → Option Ringbuffer
store_at r buf pwrite = do
  m ← store r.size r.bytes r.pwrite buf
  some (record r { bytes = m; pwrite = pwrite })

-- `ringbuffer_write` of the bytes `buf`.
unfoldable pub write : Ringbuffer → Text → Option (ℕ × Ringbuffer)
write r buf = do
  let split = split_at r.size r.pwrite (length buf)
  r₁ ← if ltb 0 split then store_at r (take split buf) 0 else some r
  let rest = drop split buf
  r₂ ← store_at r₁ rest ((r₁.pwrite + length rest) % r₁.size)
  some (length buf, r₂)

-- `memcpy` of `n` bytes from `data + pread[readd]`, and its new position.
abbrev pub load_at : Ringbuffer → ℕ → ℕ → ℕ → Option (Text × Ringbuffer)
load_at r readd n pos = do
  t ← load r.size r.bytes (r.pread readd) n
  some (t, record r { pread = update r.pread readd pos })

-- The second `memcpy` of `ringbuffer_read` and what follows it, behind the bytes `a`.
unfoldable pub read_rest : Text → ℕ → Ringbuffer → ℕ → Option (Text × Ringbuffer)
read_rest a todo r readd = do
  (b, r') ← load_at r readd todo ((r.pread readd + todo) % r.size)
  some (a ++ b, update_min r')

-- `ringbuffer_read` of `len` bytes.
unfoldable pub read : Ringbuffer → ℕ → ℕ → Option (Text × Ringbuffer)
read r readd len =
    let split = split_at r.size (r.pread readd) len in
    if ltb 0 split
    then (do (a, r') ← load_at r readd split 0; read_rest a (len - split) r' readd)
    else read_rest [] (len - split) r readd

-- What `read(2)` answers: -1, or bytes.
pub data ReadAnswer : Type 0 where
  failed : ReadAnswer
  got : Text → ReadAnswer

-- One `read(fd, data + pwrite, n)` of `ringbuffer_readfd`: the answer's bytes are in the block, and
-- the position is moved where there are any.
unfoldable pub fill : Ringbuffer → Text → Option Ringbuffer
fill r [] = some r
fill r (b ∷ bs) = store_at r (b ∷ bs) ((r.pwrite + length (b ∷ bs)) % r.size)

-- The second `read` of `ringbuffer_readfd`, for what is left to do.
unfoldable pub readfd_rest : ReadAnswer → ℕ → Ringbuffer → Option (Option ℕ × Ringbuffer)
unfolding fill
readfd_rest failed nread r = some (none, r)
readfd_rest (got t) nread r = do r' ← fill r t; some (some (nread + length t), r')

-- `ringbuffer_readfd` with the two calls that it may make; the result -1 is `none`.
unfoldable pub readfd :
    (ℕ → ReadAnswer) → (ℕ → ReadAnswer) → Ringbuffer → Option (Option ℕ × Ringbuffer)
unfolding readfd_rest
readfd first second r =
    let len = free r in
    let split = split_at r.size r.pwrite len in
    if ltb 0 split
    then (elim (first split) [
      | failed ↦ some (none, r)
      | got t ↦ (do r' ← fill r t; readfd_rest (second (len - length t)) (length t) r')
    ])
    else readfd_rest (second len) 0 r

-- A descriptor's position moved over `n` bytes.
abbrev pub advance : Ringbuffer → ℕ → ℕ → Ringbuffer
advance r readd n =
    if n == 0 then r else record r { pread = update r.pread readd ((r.pread readd + n) % r.size) }

-- The second `write` of `ringbuffer_writefd` and what follows it. `write(2)` answers with the number
-- of bytes taken, or `none` for -1. The result is what the function returns, the bytes
-- handed over so far and the buffer.
unfoldable pub writefd_rest :
    Option ℕ → ℕ → Text → Ringbuffer → ℕ → Option (Option ℕ × Text × Ringbuffer)
writefd_rest none nwritten sent r readd = some (none, sent, r)
writefd_rest (some n) nwritten sent r readd = do
  t ← load r.size r.bytes (r.pread readd) n
  some (some (nwritten + n), sent ++ t, update_min (advance r readd n))

-- The test behind the first `write` of `ringbuffer_writefd`, which took the `n` bytes `t`.
unfoldable pub writefd_after :
    (ℕ → Option ℕ) → ℕ → ℕ → ℕ → Text → Ringbuffer → ℕ → Option (Option ℕ × Text × Ringbuffer)
unfolding writefd_rest
writefd_after second len split n t r readd =
    if n == split
    then writefd_rest (second (len - n)) n t r readd
    else some (some n, t, update_min r)

-- `ringbuffer_writefd` with the two calls that it may make.
unfoldable pub writefd :
    (ℕ → Option ℕ) → (ℕ → Option ℕ) → Ringbuffer → ℕ → Option (Option ℕ × Text × Ringbuffer)
unfolding writefd_after
writefd first second r readd =
    let len = avail r readd in
    let split = split_at r.size (r.pread readd) len in
    if len == 0
    then some (some 0, [], r)
    else if ltb 0 split
    then (elim (first split) [
      | none ↦ some (none, [], r)
      | some n ↦ (do
        t ← load r.size r.bytes (r.pread readd) n
        writefd_after second len split n t (advance r readd n) readd)
    ])
    else writefd_rest (second len) 0 [] r readd
