-- ===== src/Ogg/Pages.antt =====
-- The header pages of streams that begin together, for src/ogg-stdin.c.
use sighttpd.Prelude.{
  ℕ, ◌+◌, ◌<◌, ◌≡◌, ◌∙◌, refl, sym, ap, Text, Bool, true, false, some, List, [], ◌∷◌, ◌++◌, ◌==◌,
  if◌then◌else◌, arith, append_assoc, append-nil,
}
use sighttpd.Ogg.{Page, Oggstdin, oggstdin_read_page}

-- The bytes of pages, the packets of one stream that they have, and whether they have a page of it.
unfoldable pub bytes_of : List Page → Text
bytes_of [] = []
bytes_of (og ∷ pages) = (og.header ++ og.body) ++ bytes_of pages

unfoldable pub packets_of : (serialno : ℕ) → List Page → ℕ
packets_of serialno [] = 0
packets_of serialno (og ∷ pages) =
    (if og.serialno == serialno then og.packets else 0) + packets_of serialno pages

unfoldable pub has_stream : (serialno : ℕ) → List Page → Bool
has_stream serialno [] = false
has_stream serialno (og ∷ pages) =
    if og.serialno == serialno then true else has_stream serialno pages

-- The header pages of streams that begin together, and the state after the last of them. The first page
-- of each stream is marked as such and no other is; while a page comes some stream lacks packets of its
-- headers, and a page that does not begin a stream is of a stream that lacks some.
pub data Headers (numheaders : ℕ → ℕ) : List Page → Oggstdin → Type 0 where
  first :
      (og : Page) (st st' : Oggstdin) (continue : Bool)
      → og.bos ≡ true
      → st.in_headers ≡ 0
      → st.header_tracker ≡ []
      → oggstdin_read_page numheaders og st ≡ some (st', continue)
      → Headers numheaders (og ∷ []) st'
  begins :
      (pages : List Page) (og : Page) (st st' : Oggstdin) (continue : Bool)
      → Headers numheaders pages st
      → 0 < st.in_headers
      → og.bos ≡ true
      → has_stream og.serialno pages ≡ false
      → oggstdin_read_page numheaders og st ≡ some (st', continue)
      → Headers numheaders (pages ++ og ∷ []) st'
  goes_on :
      (pages : List Page) (og : Page) (st st' : Oggstdin) (continue : Bool)
      → Headers numheaders pages st
      → 0 < st.in_headers
      → og.bos ≡ false
      → has_stream og.serialno pages ≡ true
      → packets_of og.serialno pages < numheaders og.serialno
      → oggstdin_read_page numheaders og st ≡ some (st', continue)
      → Headers numheaders (pages ++ og ∷ []) st'

pub bytes_of-snoc :
    (pages : List Page) (og : Page)
    → bytes_of (pages ++ og ∷ []) ≡ (bytes_of pages ++ og.header) ++ og.body
unfolding bytes_of
bytes_of-snoc [] og = append-nil (og.header ++ og.body)
bytes_of-snoc (p ∷ pages) og =
    ap (λ t. (p.header ++ p.body) ++ t) (bytes_of-snoc pages og)
    ∙ (sym (append_assoc (p.header ++ p.body) (bytes_of pages ++ og.header) og.body)
        ∙ ap (λ t. t ++ og.body)
            (sym (append_assoc (p.header ++ p.body) (bytes_of pages) og.header)))

pub packets_of-snoc :
    (s : ℕ) (pages : List Page) (og : Page)
    → packets_of s (pages ++ og ∷ [])
      ≡ packets_of s pages + (if og.serialno == s then og.packets else 0)
unfolding packets_of
packets_of-snoc s [] og = omega arith
packets_of-snoc s (p ∷ pages) og = omega (arith, packets_of-snoc s pages og)

pub has_stream-snoc :
    (s : ℕ) (pages : List Page) (og : Page)
    → has_stream s (pages ++ og ∷ [])
      ≡ (if has_stream s pages then true else if og.serialno == s then true else false)
unfolding has_stream
has_stream-snoc s [] og = refl
has_stream-snoc s (p ∷ pages) og = ground (arith, has_stream-snoc s pages og)
