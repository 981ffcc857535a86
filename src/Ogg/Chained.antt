-- ===== src/Ogg/Chained.antt =====
-- What src/ogg-stdin.c keeps where the streams before are complete.
use sighttpd.Prelude.{
  ℕ, ◌+◌, ◌≤◌, ◌≡◌, ◌∙◌, refl, sym, ap, subst, Bool, true, some, [], ◌++◌, arith,
}
use sighttpd.Ogg.{
  Page, Oggstdin, tracked, write_headers, header_page, begin_stream, oggstdin_read_page,
  headers_sent,
}
use sighttpd.Ogg.Tracker.{or_zero, IsUnique}
use sighttpd.Ogg.File.{HasFile, write_headers-HasFile}
use sighttpd.Ogg.Collect.{is_complete-track, read_page_header, begin_stream_first}

-- The trackers and the count of streams are not told of the bytes.
header_page-HasFile :
    (numheaders : ℕ → ℕ) (og : Page) (st : Oggstdin)
    → HasFile [] st
    → HasFile (og.header ++ og.body) (header_page numheaders og st)
unfolding header_page
header_page-HasFile numheaders og st f =
    let g =
      write_headers-HasFile og.header og.body (write_headers og.header st)
        (write_headers-HasFile [] og.header st f) in
    record { placed = g.placed; measured = g.measured; held = g.held }

header_page_last :
    (numheaders : ℕ → ℕ) (og : Page) (mid : Oggstdin)
    → IsUnique mid.header_tracker
    → numheaders og.serialno ≤ or_zero (tracked mid.header_tracker og.serialno) + og.packets
    → mid.in_headers ≡ 1
    → (header_page numheaders og mid).in_headers ≡ 0
unfolding header_page
header_page_last numheaders og mid u enough one =
    ground (arith, is_complete-track numheaders og.serialno og.packets mid.header_tracker u, one)

-- The first page of a stream that comes while no stream lacks headers throws away the headers that were kept:
-- what is sent from then on is this page alone. Trackers are never given up, so where the packets
-- counted for its serial number before, with those of this page, are as many as the headers have, no
-- further page of it is taken for a header.
pub read_page_begins :
    (numheaders : ℕ → ℕ) (og : Page) (st st' : Oggstdin) (continue : Bool)
    → og.bos ≡ true
    → st.in_headers ≡ 0
    → IsUnique st.header_tracker
    → numheaders og.serialno ≤ or_zero (tracked st.header_tracker og.serialno) + og.packets
    → oggstdin_read_page numheaders og st ≡ some (st', continue)
    → (headers_sent st' ≡ og.header ++ og.body) × (st'.in_headers ≡ 0)
unfolding headers_sent
read_page_begins numheaders og st st' continue bos z u enough e =
    let mid = record st { headers_len = 0; offset = 0; in_headers = 1 } in
    let begun : begin_stream og st ≡ mid = begin_stream_first og st bos z in
    let last : header_page numheaders og mid ≡ st' =
      ap (header_page numheaders og) (sym begun)
      ∙ read_page_header numheaders og st st' continue
          (subst (λ m. 1 ≤ m.in_headers) (sym begun) (omega arith)) e in
    (
      (subst (HasFile (og.header ++ og.body)) last (
          header_page-HasFile numheaders og mid
            (record { placed = refl; measured = refl; held = refl }))).held,
      subst (λ s. s.in_headers ≡ 0) last (header_page_last numheaders og mid u enough refl),
    )
