-- ===== src/Ringbuffer/Tests.antt =====
-- Runs of src/ringbuffer.c on a block of four bytes, in which a reader is about to go round the end.
use sighttpd.Prelude.{
  ℕ, ◌+◌, ◌-◌, ◌≤◌, ◌<◌, min, ◌≡◌, refl, arith, none, some, Text, [], ◌∷◌, ◌++◌, ◌==◌, ◌⊎◌, length,
  take, length-take,
}
use sighttpd.Ringbuffer.{Ringbuffer, max_readers, avail, any_reader, update_min, open_reader, free}
use sighttpd.Ringbuffer.Transfer.{ReadAnswer, got, write, read, readfd, writefd}
use sighttpd.Ringbuffer.Valid.{IsValid, contents}
use sighttpd.Ringbuffer.Descriptors.{AllOpen, IsFirst, Opened, open_reader_lem, free-update_min}
use sighttpd.Ringbuffer.Write.{write_lem}
use sighttpd.Ringbuffer.Read.{Took, read_lem}
use sighttpd.Ringbuffer.Send.{Served, writefd_lem}
use sighttpd.Ringbuffer.Fill.{Filled, StaysIn, readfd_lem, readfd_overflow}

-- Descriptor 0 is in use; 2 bytes wait for it, at the places 3 and 0.
abbrev one_reader : Ringbuffer
one_reader = record {
  pread = λ i. 3;
  min_pread = 3;
  pwrite = 1;
  bytes = λ p. 10 + p;
  size = 4;
  readers = λ i. i == 0;
}

one_reader-IsValid : IsValid one_reader
one_reader-IsValid = record {
  pwrite_in = omega arith;
  min_in = omega arith;
  preads_in = λ i h. omega arith;
}

write_lem_example :
    (s : Ringbuffer) × (write one_reader (7 ∷ 8 ∷ []) ≡ some (2, s))
    × IsValid s
    × ((i : ℕ)
        → i < max_readers
        → avail one_reader i + 2 < 4
        → contents s i ≡ contents one_reader i ++ 7 ∷ 8 ∷ [])
write_lem_example = write_lem (7 ∷ 8 ∷ []) one_reader-IsValid (omega arith)

-- The socket takes the one byte before the end of the block, then the one at its start.
writefd_lem_example : Served one_reader 0 (writefd (λ n. some (min n 1)) (λ n. none) one_reader 0)
writefd_lem_example =
    writefd_lem (λ n. some (min n 1)) (λ n. none) 0 one_reader-IsValid (omega arith)
      (λ n k e. ground arith) (λ n k e. ground arith)

two_waiting : 2 ≤ avail one_reader 0
unfolding avail
two_waiting = omega arith

read_lem_example :
    (sent : Text) × (s : Ringbuffer) × (read one_reader 0 2 ≡ some (sent, s))
    × (length sent ≡ 2)
    × Took one_reader 0 sent s
read_lem_example = read_lem 0 2 one_reader-IsValid (omega arith) two_waiting

-- The first call reads two bytes where three would reach the end of the block, the second one more.
abbrev first_two : ℕ → ReadAnswer
first_two n = got (take n (9 ∷ 8 ∷ []))

abbrev then_one : ℕ → ReadAnswer
then_one n = got (take n (7 ∷ []))

stays : StaysIn first_two then_one one_reader
stays = record {
  second_fits = λ t u round f short g. ground (
    arith,
    length-take {A = ℕ} (one_reader.size - one_reader.pwrite) (9 ∷ 8 ∷ []),
    length-take {A = ℕ} (free one_reader - length t) (7 ∷ []),
  );
}

readfd_lem_example : Filled first_two then_one one_reader (readfd first_two then_one one_reader)
readfd_lem_example =
    readfd_lem first_two then_one one_reader-IsValid
      (λ n t e. ground (arith, length-take {A = ℕ} n (9 ∷ 8 ∷ [])))
      (λ n t e. ground (arith, length-take {A = ℕ} n (7 ∷ []))) stays

-- One byte of the three comes first, then two are read to place 3: two more than are left.
abbrev turned : Ringbuffer
turned = record one_reader { pread = λ i. 2; min_pread = 2; pwrite = 3 }

turned-IsValid : IsValid turned
turned-IsValid = record {
  pwrite_in = omega arith;
  min_in = omega arith;
  preads_in = λ i h. omega arith;
}

turned-free : 4 < 3 + free turned
unfolding free any_reader
turned-free = omega arith

readfd_overflow_example : readfd (λ n. got []) (λ n. got (9 ∷ 9 ∷ [])) turned ≡ none
readfd_overflow_example =
    readfd_overflow (λ n. got []) (λ n. got (9 ∷ 9 ∷ [])) [] (9 ∷ 9 ∷ []) turned-IsValid turned-free
      refl (omega arith) refl (omega arith)

open_reader_lem_example :
    ((open_reader one_reader ≡ (none, one_reader)) × AllOpen one_reader.readers 0 max_readers)
    ⊎ ((i : ℕ) × ((open_reader one_reader).0 ≡ some i)
        × IsFirst one_reader.readers 0 max_readers i
        × Opened one_reader (open_reader one_reader).1 i)
open_reader_lem_example = open_reader_lem one_reader one_reader-IsValid

free-update_min_example :
    (free (update_min one_reader) + avail one_reader 0 + 1 ≡ 4)
    × ((i : ℕ)
        → avail one_reader 0 < avail one_reader i
        → 4 ≤ avail one_reader i + free (update_min one_reader))
free-update_min_example =
    free-update_min one_reader 0 one_reader-IsValid (omega arith) refl (λ k a b. ground arith)
