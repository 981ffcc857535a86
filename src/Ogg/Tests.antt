-- ===== src/Ogg/Tests.antt =====
-- Two streams, with two packets of headers each, of which one has its second in a page of its own.
use sighttpd.Prelude.{
  ℕ, ◌+◌, ◌≤◌, ◌≡◌, refl, Bool, true, false, some, List, [], ◌∷◌, ◌++◌, codes, arith,
}
use sighttpd.Ringbuffer.{Ringbuffer}
use sighttpd.Ogg.{
  Page, Oggstdin, oggstdin_read_page, begin_stream, header_page, write_headers, file_write,
  add_packets, or_first, track, tracked, reaches, is_complete, headers_sent, oggstdin_new,
}
use sighttpd.Ogg.Tracker.{IsUnique, or_zero}
use sighttpd.Ogg.Pages.{Headers, first, begins, goes_on, bytes_of, packets_of, has_stream}
use sighttpd.Ogg.Collect.{Collects}
use sighttpd.Ogg.Headers.{Headers-Collects, Headers_complete}
use sighttpd.Ogg.Chained.{read_page_begins}

abbrev idle : Ringbuffer
idle = record {
  bytes = λ i. 0;
  size = 0;
  readers = λ i. false;
  pread = λ i. 0;
  pwrite = 0;
  min_pread = 0;
}

abbrev st_0 : Oggstdin
st_0 = oggstdin_new idle (codes "/a.ogg") (codes "application/ogg")

abbrev two_each : ℕ → ℕ
two_each s = 2

abbrev page : Bool → ℕ → ℕ → Page
page bos packets serialno = record {
  header = codes "OggS";
  body = codes "ab";
  bos = bos;
  packets = packets;
  serialno = serialno;
}

abbrev after : Page → Oggstdin → Oggstdin
after og st = header_page two_each og (begin_stream og st)

abbrev st_1 : Oggstdin
st_1 = after (page true 1 7) st_0

abbrev st_2 : Oggstdin
st_2 = after (page true 2 9) st_1

abbrev st_3 : Oggstdin
st_3 = after (page false 1 7) st_2

abbrev pages : List Page
pages = page true 1 7 ∷ page true 2 9 ∷ page false 1 7 ∷ []

three_pages : Headers two_each pages st_3
unfolding oggstdin_read_page begin_stream header_page write_headers file_write add_packets or_first
    track tracked reaches is_complete oggstdin_new packets_of has_stream
three_pages =
    goes_on (page true 1 7 ∷ page true 2 9 ∷ []) (page false 1 7) st_2 st_3 true
      (begins (page true 1 7 ∷ []) (page true 2 9) st_1 st_2 true
        (first (page true 1 7) st_0 st_1 true refl refl refl refl) (omega arith) refl refl refl)
      (omega arith) refl refl (omega arith) refl

Headers-Collects_example : Collects two_each pages st_3
Headers-Collects_example = Headers-Collects three_pages

all_complete : (s : ℕ) → has_stream s pages ≡ true → two_each s ≤ packets_of s pages
unfolding has_stream packets_of
all_complete s h = ground arith

Headers_complete_example : (st_3.in_headers ≡ 0) × (headers_sent st_3 ≡ bytes_of pages)
Headers_complete_example = Headers_complete three_pages all_complete

-- The next stream of a chain, with a serial number that was there before.
abbrev st_4 : Oggstdin
st_4 = after (page true 1 7) st_3

st_4_reached : oggstdin_read_page two_each (page true 1 7) st_3 ≡ some (st_4, true)
unfolding oggstdin_read_page begin_stream header_page write_headers file_write add_packets or_first
    track tracked reaches is_complete oggstdin_new
st_4_reached = refl

st_3-IsUnique : IsUnique st_3.header_tracker
unfolding begin_stream header_page write_headers add_packets or_first track tracked oggstdin_new
    reaches is_complete
st_3-IsUnique = (refl, (refl, tt))

enough : two_each 7 ≤ or_zero (tracked st_3.header_tracker 7) + 1
unfolding begin_stream header_page write_headers add_packets or_first track tracked oggstdin_new
    reaches is_complete
enough = omega arith

none_lacks : st_3.in_headers ≡ 0
unfolding begin_stream header_page write_headers add_packets or_first track tracked oggstdin_new
    reaches is_complete
none_lacks = refl

read_page_begins_example : (headers_sent st_4 ≡ codes "OggS" ++ codes "ab") × (st_4.in_headers ≡ 0)
read_page_begins_example =
    read_page_begins two_each (page true 1 7) st_3 st_4 true refl none_lacks st_3-IsUnique enough
      st_4_reached
