-- ===== src/Ogg/Collect.antt =====
-- One header page of src/ogg-stdin.c: what it does to the file and to the counts.
use sighttpd.Prelude.{
  ℕ, ◌+◌, ◌<◌, ◌≡◌, ◌∙◌, refl, sym, ap, subst, Bool, true, false, Option, none, some, List, [], ◌∷◌,
  ◌++◌, leb, if◌then◌else◌, arith, inl, inr, ◌⊎◌, lt→ltb, ==_iff, ==_ne,
}
use sighttpd.Ogg.{
  HeaderTracker, Page, Oggstdin, write_headers, track, tracked, reaches, is_complete, begin_stream,
  header_page, oggstdin_read_page,
}
use sighttpd.Ogg.Tracker.{
  pending, or_zero, IsUnique, track-IsUnique, tracked-track, pending-track_first,
  pending-track_more,
}
use sighttpd.Ogg.Pages.{
  bytes_of, packets_of, has_stream, bytes_of-snoc, packets_of-snoc, has_stream-snoc,
}
use sighttpd.Ogg.File.{HasFile, write_headers-HasFile}

-- Where the header pages have left the state: the file has their bytes, each stream its packets, and
-- `in_headers` counts the streams that lack packets.
pub record Collects (numheaders : ℕ → ℕ) (pages : List Page) (st : Oggstdin) : Type 0 where
  pub file : HasFile (bytes_of pages) st
  pub counted :
      (s : ℕ)
      → tracked st.header_tracker s
        ≡ (if has_stream s pages then some (packets_of s pages) else none)
  pub waits : st.in_headers ≡ pending numheaders st.header_tracker
  pub unique : IsUnique st.header_tracker

-- What holds between `begin_stream` and the rest of `oggstdin_read_page`.
pub record Ready (numheaders : ℕ → ℕ) (pages : List Page) (og : Page) (st : Oggstdin) : Type 0 where
  pub file : HasFile (bytes_of pages) st
  pub counted :
      (s : ℕ)
      → tracked st.header_tracker s
        ≡ (if has_stream s pages then some (packets_of s pages) else none)
  pub unique : IsUnique st.header_tracker
  pub waits :
      ((has_stream og.serialno pages ≡ false)
        × (st.in_headers ≡ 1 + pending numheaders st.header_tracker))
      ⊎ ((has_stream og.serialno pages ≡ true)
          × (packets_of og.serialno pages < numheaders og.serialno)
          × (st.in_headers ≡ pending numheaders st.header_tracker))

packets_of-absent :
    (s : ℕ) (pages : List Page) → has_stream s pages ≡ false → packets_of s pages ≡ 0
unfolding packets_of has_stream
packets_of-absent s [] h = refl
packets_of-absent s (og ∷ pages) h = ground (arith, packets_of-absent s pages)

pub is_complete-track :
    (numheaders : ℕ → ℕ) (s k : ℕ) (list : List HeaderTracker)
    → IsUnique list
    → is_complete numheaders (track s k list) s ≡ leb (numheaders s) (or_zero (tracked list s) + k)
unfolding is_complete reaches
is_complete-track numheaders s k list u =
    ap (reaches (numheaders s)) {y = some (or_zero (tracked list s) + k)}
      (tracked-track s k list s u ∙ ground arith)

module _ (numheaders : ℕ → ℕ) (pages : List Page) (og : Page) (st : Oggstdin)
    (r : Ready numheaders pages og st) where
  header_page-counted :
      (s : ℕ)
      → tracked (track og.serialno og.packets st.header_tracker) s
        ≡ (if has_stream s (pages ++ og ∷ []) then some (packets_of s (pages ++ og ∷ [])) else none)
  header_page-counted s =
      tracked-track og.serialno og.packets st.header_tracker s r.unique
      ∙ ground (
        arith,
        r.counted s,
        r.counted og.serialno,
        has_stream-snoc s pages og,
        packets_of-snoc s pages og,
        packets_of-absent s pages,
      )

  header_page-waits :
      (header_page numheaders og st).in_headers
      ≡ pending numheaders (track og.serialno og.packets st.header_tracker)
  unfolding header_page
  header_page-waits =
      let s = og.serialno in
      let k = og.packets in
      let list = st.header_tracker in
      let complete = is_complete-track numheaders s k list r.unique in
      elim r.waits [
        | inl (absent, n) ↦
            let lacks : tracked list s ≡ none = r.counted s ∙ rw absent refl in
            ground (arith, complete, lacks, n, pending-track_first numheaders s k list lacks)
        | inr (present, few, n) ↦
            let lacks : tracked list s ≡ some (packets_of s pages) =
              r.counted s ∙ rw present refl in
            ground (
              arith,
              complete,
              lacks,
              n,
              pending-track_more numheaders s k (packets_of s pages) list lacks few r.unique,
            )
      ]

  header_page-Collects : Collects numheaders (pages ++ og ∷ []) (header_page numheaders og st)
  unfolding header_page
  header_page-Collects =
      let f =
        write_headers-HasFile (bytes_of pages ++ og.header) og.body (write_headers og.header st)
          (write_headers-HasFile (bytes_of pages) og.header st r.file) in
      record {
        file =
            subst (λ t. HasFile t (header_page numheaders og st)) (sym (bytes_of-snoc pages og))
              (record { placed = f.placed; measured = f.measured; held = f.held });
        counted = header_page-counted;
        waits = header_page-waits;
        unique = track-IsUnique og.serialno og.packets st.header_tracker r.unique;
      }

state_of : (d : Oggstdin) → Option (Oggstdin × Bool) → Oggstdin
state_of d none = d
state_of d (some (st, continue)) = st

pub read_page_header :
    (numheaders : ℕ → ℕ) (og : Page) (st st' : Oggstdin) (continue : Bool)
    → 0 < (begin_stream og st).in_headers
    → oggstdin_read_page numheaders og st ≡ some (st', continue)
    → header_page numheaders og (begin_stream og st) ≡ st'
unfolding oggstdin_read_page state_of
read_page_header numheaders og st st' continue h e =
    ap (state_of st)
      {x = some (
        header_page numheaders og (begin_stream og st),
        (header_page numheaders og (begin_stream og st)).active,
      )}
      (sym (rw (lt→ltb 0 (begin_stream og st).in_headers h) refl) ∙ e)

pub begin_stream_none : (og : Page) (st : Oggstdin) → og.bos ≡ false → begin_stream og st ≡ st
unfolding begin_stream
begin_stream_none og st e = rw e refl

pub begin_stream_first :
    (og : Page) (st : Oggstdin)
    → og.bos ≡ true
    → st.in_headers ≡ 0
    → begin_stream og st ≡ record st { headers_len = 0; offset = 0; in_headers = 1 }
unfolding begin_stream
begin_stream_first og st e z = rw (e, (==_iff st.in_headers 0).1 z) refl

pub begin_stream_next :
    (og : Page) (st : Oggstdin)
    → og.bos ≡ true
    → 0 < st.in_headers
    → begin_stream og st ≡ record st { in_headers = st.in_headers + 1 }
unfolding begin_stream
begin_stream_next og st e p = rw (e, ==_ne st.in_headers 0 (λ z. absurd (omega (arith, z)))) refl

-- A page that is `Ready` is collected.
pub collect-page :
    (numheaders : ℕ → ℕ) (pages : List Page) (og : Page) (st mid st' : Oggstdin) (continue : Bool)
    → begin_stream og st ≡ mid
    → 0 < mid.in_headers
    → Ready numheaders pages og mid
    → oggstdin_read_page numheaders og st ≡ some (st', continue)
    → Collects numheaders (pages ++ og ∷ []) st'
collect-page numheaders pages og st mid st' continue b p r e =
    subst (Collects numheaders (pages ++ og ∷ []))
      (ap (header_page numheaders og) (sym b)
        ∙ read_page_header numheaders og st st' continue (subst (λ m. 0 < m.in_headers) (sym b) p)
            e)
      (header_page-Collects numheaders pages og mid r)
