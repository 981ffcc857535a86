-- ===== src/Ringbuffer.antt =====
-- src/ringbuffer.c and src/ringbuffer.h: one writer and up to 16 readers over one block of bytes.
-- Positions are `ssize_t` values that are never negative; the bitmask `readers` is read bit by bit.
-- The mutex is held by `ringbuffer_update_min` alone and leaves no trace in a state.
pub mod Transfer
pub mod Circular
pub mod Valid
pub mod Descriptors
pub mod Write
pub mod Read
pub mod Send
pub mod Fill
mod Tests
use sighttpd.Prelude.{
  ℕ, suc, zero, ◌+◌, ◌-◌, ◌≤◌, ◌<◌, Bool, true, false, not, ◌||◌, ◌&&◌, Option, none, some,
  if◌then◌else◌, ◌==◌, ltb, leb,
}
use sighttpd.Memory.{Memory}

abbrev pub max_readers : ℕ
max_readers = 16

-- `struct ringbuffer`. The block `data` is `bytes`, of `size` bytes.
pub record Ringbuffer : Type 0 where
  pub pread : ℕ → ℕ
  pub min_pread : ℕ
  pub pwrite : ℕ
  pub bytes : Memory
  pub size : ℕ
  pub readers : ℕ → Bool

-- An array or a bitmask with one place written.
abbrev pub update {ℓ} : {A : Type ℓ} → (ℕ → A) → ℕ → A → ℕ → A
update f i v j = if j == i then v else f j

-- `readers != 0`, over the `n` bits from bit `i` on.
unfoldable pub any_reader : (ℕ → Bool) → ℕ → ℕ → Bool
any_reader readers zero i = false
any_reader readers (suc n) i = readers i || any_reader readers n (suc i)

abbrev pub has_readers : Ringbuffer → Bool
has_readers r = any_reader r.readers max_readers 0

-- `ringbuffer_avail`
unfoldable pub avail : Ringbuffer → ℕ → ℕ
avail r readd =
    if ltb r.pwrite (r.pread readd)
    then r.pwrite + r.size - r.pread readd
    else r.pwrite - r.pread readd

-- The loop of `ringbuffer_update_min` over the `n` descriptors from `i` on. `above_min` is
-- `min_avail + 1`, which the loop never changes from 0; `min_pread` is not initialised at first.
unfoldable pub scan_min : Ringbuffer → ℕ → ℕ → ℕ → Option ℕ → Option ℕ
scan_min r above_min zero i min_pread = min_pread
scan_min r above_min (suc n) i min_pread =
    scan_min r above_min n (suc i)
      (if r.readers i && ltb above_min (avail r i + 1) then some (r.pread i) else min_pread)

-- `rbuf->min_pread = min_pread`; the loop meets a reader, so that `none` does not come up.
unfoldable pub set_min : Ringbuffer → Option ℕ → Ringbuffer
set_min r none = r
set_min r (some min_pread) = record r { min_pread = min_pread }

-- `ringbuffer_update_min`
unfoldable pub update_min : Ringbuffer → Ringbuffer
update_min r = if not (has_readers r) then r else set_min r (scan_min r 0 max_readers 0 none)

-- `ringbuffer_reset`
unfoldable pub reset : Ringbuffer → Ringbuffer
reset r = record r {
  pread = λ i. if ltb i max_readers then 0 else r.pread i;
  pwrite = 0;
  min_pread = 0;
}

-- `ringbuffer_init` of whatever the struct held, with a block of `len` bytes that it clears.
unfoldable pub init : Ringbuffer → ℕ → Ringbuffer
unfolding reset
init r len = reset (record r { readers = λ _. false; bytes = λ _. 0; size = len })

-- The first descriptor not in use, of the `n` from `i` on: the loop of `ringbuffer_open`.
unfoldable pub first_free : (ℕ → Bool) → ℕ → ℕ → Option ℕ
first_free readers zero i = none
first_free readers (suc n) i = if not (readers i) then some i else first_free readers n (suc i)

-- What `ringbuffer_open` does with the descriptor found; `none` is -1.
unfoldable pub take_descriptor : Ringbuffer → Option ℕ → Option ℕ × Ringbuffer
take_descriptor r none = (none, r)
take_descriptor r (some i) =
    (some i, record r { readers = update r.readers i true; pread = update r.pread i r.pwrite })

-- `ringbuffer_open`
unfoldable pub open_reader : Ringbuffer → Option ℕ × Ringbuffer
open_reader r = take_descriptor r (first_free r.readers max_readers 0)

-- `ringbuffer_close`: the bit of the descriptor is flipped.
unfoldable pub close_reader : Ringbuffer → ℕ → Ringbuffer
close_reader r readd =
    if leb max_readers readd
    then r
    else update_min (record r { readers = update r.readers readd (not (r.readers readd)) })

-- `ringbuffer_empty`
unfoldable pub empty : Ringbuffer → ℕ → Bool
empty r readd = r.pread readd == r.pwrite

-- `ringbuffer_free`
unfoldable pub free : Ringbuffer → ℕ
free r =
    (if not (has_readers r)
      then r.size
      else if leb r.min_pread r.pwrite
      then r.min_pread + r.size - r.pwrite
      else r.min_pread - r.pwrite)
    - 1

-- `ringbuffer_flush`
unfoldable pub flush : Ringbuffer → ℕ → Ringbuffer
flush r readd = update_min (record r { pread = update r.pread readd r.pwrite })
