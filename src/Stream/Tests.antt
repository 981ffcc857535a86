-- ===== src/Stream/Tests.antt =====
-- A run of src/fdstream.c on a block of four bytes.
use sighttpd.Prelude.{
  ℕ, ◌+◌, ◌<◌, false, ◌≡◌, Option, some, [], ◌∷◌, ◌++◌, refl, arith, min, take, length, length-take,
}
use sighttpd.Ringbuffer.{
  Ringbuffer, open_reader, avail, free, any_reader, take_descriptor, first_free, update_min,
}
use sighttpd.Memory.{store, load, copy, slice}
use sighttpd.Ringbuffer.Circular.{copy_round}
use sighttpd.Ringbuffer.Valid.{IsValid, contents}
use sighttpd.Ringbuffer.Transfer.{
  ReadAnswer, got, failed, readfd, readfd_rest, fill, writefd, writefd_rest, advance,
}
use sighttpd.Ringbuffer.Write.{written}
use sighttpd.Ringbuffer.Fill.{bytes_read}
use sighttpd.Stream.{Run, opened, feed, send}
use sighttpd.Stream.Order.{Run_lem}

abbrev empty : Ringbuffer
empty = record {
  pread = λ i. 0;
  min_pread = 0;
  pwrite = 0;
  bytes = λ a. 0;
  size = 4;
  readers = λ i. false;
}

empty-IsValid : IsValid empty
empty-IsValid = record {
  pwrite_in = omega arith;
  min_in = omega arith;
  preads_in = λ i h. omega arith;
}

abbrev one_open : Ringbuffer
one_open = (open_reader empty).1

-- `read` answers with the bytes 7 and 8, and the socket takes one of them.
abbrev two_bytes : ℕ → ReadAnswer
two_bytes n = got (take n (7 ∷ 8 ∷ []))

abbrev one_byte : ℕ → Option ℕ
one_byte n = some (min n 1)

abbrev after_feed : Ringbuffer
after_feed = written one_open (7 ∷ 8 ∷ [])

abbrev after_send : Ringbuffer
after_send = update_min (advance after_feed 0 1)

is_fed : readfd (λ n. failed) two_bytes one_open ≡ some (some 2, after_feed)
unfolding readfd readfd_rest fill free any_reader open_reader take_descriptor first_free update_min
    store copy copy_round
is_fed = refl

is_sent : writefd one_byte one_byte after_feed 0 ≡ some (some 1, 7 ∷ [], after_send)
unfolding writefd writefd_rest open_reader take_descriptor first_free avail load slice copy
    copy_round
is_sent = refl

is_open : open_reader empty ≡ (some 0, one_open)
unfolding open_reader take_descriptor first_free
is_open = refl

abbrev short_run :
    Run 0 after_send ([] ++ bytes_read (λ n. failed) two_bytes one_open) ([] ++ 7 ∷ [])
short_run =
    send after_feed after_send _ [] (7 ∷ []) one_byte one_byte (some 1)
      (feed one_open after_feed [] [] (λ n. failed) two_bytes (some 2)
        (opened empty one_open is_open) is_fed)
      is_sent

has_room : avail one_open 0 + length (bytes_read (λ n. failed) two_bytes one_open) < one_open.size
unfolding bytes_read avail free any_reader open_reader take_descriptor first_free update_min
has_room = omega arith

Run_lem_example :
    IsValid after_send
    × ((7 ∷ []) ++ contents after_send 0 ≡ [] ++ bytes_read (λ n. failed) two_bytes one_open)
Run_lem_example = Run_lem short_run (omega arith) (
  (
    empty-IsValid,
    (λ n t e. ground arith),
    (λ n t e. ground (arith, length-take {A = ℕ} n (7 ∷ 8 ∷ []))),
    has_room,
  ),
  (λ n k e. ground arith),
  (λ n k e. ground arith),
)
