-- ===== src/Ogg.antt =====
-- src/ogg-stdin.c: the pages of an Ogg stream on standard input, of which the header pages are kept in a
-- file for every client and the others go through a ring buffer. A page is what libogg tells of
-- it; `numheaders` is the function `oggz_stream_get_numheaders` of liboggz.
pub mod Tracker
pub mod Pages
pub mod File
pub mod Collect
pub mod Headers
pub mod Chained
mod Tests
use sighttpd.Prelude.{
  ℕ, ◌+◌, ◌-◌, Text, Bool, true, false, Option, none, some, List, [], ◌∷◌, ◌++◌, ◌==◌, ltb, leb,
  if◌then◌else◌, ◌>>=◌, codes, length, take, drop, strn_eq,
}
use sighttpd.Params.{append}
use sighttpd.Request.{Request}
use sighttpd.Status.{ok, http_status_line}
use sighttpd.Dictionary.{Dictionary, dictionary_lookup}
use sighttpd.Resource.{Resource, ResourceCheck, ResourceHead, ResourceBody, resource_new}
use sighttpd.Ringbuffer.{Ringbuffer, init}
use sighttpd.Ringbuffer.Transfer.{write}

-- `struct header_tracker`
pub record HeaderTracker : Type 0 where
  pub serialno : ℕ
  pub num_headers : ℕ

-- The arguments of `oggstdin_read_page`: `og->header`, `og->body`, what `ogg_page_bos` and
-- `ogg_page_packets` say of the page, and its serial number.
pub record Page : Type 0 where
  pub header : Text
  pub body : Text
  pub bos : Bool
  pub packets : ℕ
  pub serialno : ℕ

-- `struct oggstdin`, less its thread and its OGGZ. `headers` and `offset` are the bytes and the
-- position of the file `headers_fd`; `in_headers` is taken down only where it is not 0.
pub record Oggstdin : Type 0 where
  pub path : Text
  pub content_type : Text
  pub active : Bool
  pub rb : Ringbuffer
  pub headers : Text
  pub offset : ℕ
  pub headers_len : ℕ
  pub in_headers : ℕ
  pub header_tracker : List HeaderTracker

-- A `write` to a file that takes all bytes.
unfoldable pub file_write : (file : Text) (offset : ℕ) → Text → Text
file_write file offset t = take offset file ++ (t ++ drop (offset + length t) file)

-- `write (st->headers_fd, ...)` and `st->headers_len += ...`
unfoldable pub write_headers : Text → Oggstdin → Oggstdin
write_headers t st = record st {
  headers = file_write st.headers st.offset t;
  offset = st.offset + length t;
  headers_len = st.headers_len + length t;
}

-- `num_headers += ogg_page_packets (og)` of the first tracker of the stream; `none` where there is none.
unfoldable pub add_packets :
    (serialno packets : ℕ) → List HeaderTracker → Option (List HeaderTracker)
add_packets serialno packets [] = none
add_packets serialno packets (ht ∷ list) =
    let rest = add_packets serialno packets list in
    if ht.serialno == serialno
    then some (record ht { num_headers = ht.num_headers + packets } ∷ list)
    else do list' ← rest; some (ht ∷ list')

-- `if (!list) { ... }`: the tracker of a stream without one is put first.
unfoldable pub or_first :
    (serialno packets : ℕ) → List HeaderTracker → Option (List HeaderTracker) → List HeaderTracker
or_first serialno packets list none = record { serialno = serialno; num_headers = packets } ∷ list
or_first serialno packets list (some list') = list'

unfoldable pub track : (serialno packets : ℕ) → List HeaderTracker → List HeaderTracker
track serialno packets list = or_first serialno packets list (add_packets serialno packets list)

-- The `num_headers` of a stream.
unfoldable pub tracked : List HeaderTracker → (serialno : ℕ) → Option ℕ
tracked [] serialno = none
tracked (ht ∷ list) serialno =
    if ht.serialno == serialno then some ht.num_headers else tracked list serialno

-- `num_headers >= oggz_stream_get_numheaders (oggz, serialno)`
unfoldable pub reaches : (numheaders : ℕ) → Option ℕ → Bool
reaches numheaders none = false
reaches numheaders (some num_headers) = leb numheaders num_headers

unfoldable pub is_complete : (numheaders : ℕ → ℕ) → List HeaderTracker → (serialno : ℕ) → Bool
is_complete numheaders list serialno = reaches (numheaders serialno) (tracked list serialno)

-- `if (ogg_page_bos(og)) { ... }`
unfoldable pub begin_stream : Page → Oggstdin → Oggstdin
begin_stream og st =
    if og.bos
    then (if st.in_headers == 0
        then record st { headers_len = 0; offset = 0; in_headers = 1 }
        else record st { in_headers = st.in_headers + 1 })
    else st

-- A page while `in_headers` is not 0.
unfoldable pub header_page : (numheaders : ℕ → ℕ) → Page → Oggstdin → Oggstdin
header_page numheaders og st =
    let list = track og.serialno og.packets st.header_tracker in
    let st₁ = write_headers og.body (write_headers og.header st) in
    record st₁ {
      header_tracker = list;
      in_headers =
          if is_complete numheaders list og.serialno then st.in_headers - 1 else st.in_headers;
    }

-- Any other page.
unfoldable pub data_page : Page → Oggstdin → Option Oggstdin
data_page og st = do
  (n, rb₁) ← write st.rb og.header
  (m, rb₂) ← write rb₁ og.body
  some (record st { rb = rb₂ })

-- `oggstdin_read_page`: the state after the page and whether it returns OGGZ_CONTINUE; `none` where
-- `ringbuffer_write` leaves its block.
unfoldable pub oggstdin_read_page :
    (numheaders : ℕ → ℕ) → Page → Oggstdin → Option (Oggstdin × Bool)
oggstdin_read_page numheaders og st =
    let st₁ = begin_stream og st in
    if ltb 0 st₁.in_headers
    then (let st₂ = header_page numheaders og st₁ in some (st₂, st₂.active))
    else do st₂ ← data_page og st₁; some (st₂, st₂.active)

-- What `sendfile (fd, st->headers_fd, &offset, st->headers_len)` of `oggstdin_body` sends to a client where
-- it sends all of it; the code waits for `in_headers` to be 0 before.
unfoldable pub headers_sent : Oggstdin → Text
headers_sent st = take st.headers_len st.headers

unfoldable pub oggstdin_check : Oggstdin → ResourceCheck
oggstdin_check st request = strn_eq request.path st.path (length st.path)

-- It adds to the list of headers in place, which is not empty.
unfoldable pub oggstdin_head : Oggstdin → ResourceHead
oggstdin_head st request request_headers response_headers = (
  http_status_line ok,
  append response_headers (some (codes "Content-Type")) (some st.content_type),
)

-- What `oggstdin_resource` makes of `oggstdin_pvt`, with enough memory and a new temporary file, over the
-- `rb` that was there before.
unfoldable pub oggstdin_new : (rb : Ringbuffer) (path content_type : Text) → Oggstdin
oggstdin_new rb path content_type = record {
  path = path;
  content_type = content_type;
  active = true;
  rb = init rb 2097152;
  headers = [];
  offset = 0;
  headers_len = 0;
  in_headers = 0;
  header_tracker = [];
}

-- `oggstdin_resource`; what a client is sent is `body`.
unfoldable pub oggstdin_resource : Ringbuffer → ResourceBody → (path content_type : Text) → Resource
oggstdin_resource rb body path content_type =
    let st = oggstdin_new rb path content_type in
    resource_new (oggstdin_check st) (oggstdin_head st) body

-- `if (!ctype) ctype = DEFAULT_CONTENT_TYPE;`
unfoldable pub ogg_type_or_default : Option Text → Text
ogg_type_or_default none = codes "application/ogg"
ogg_type_or_default (some ctype) = ctype

-- `if (path) l = list_append (l, ...)` on a list that is empty.
unfoldable pub oggstdin_list : Ringbuffer → ResourceBody → Option Text → Text → List Resource
oggstdin_list rb body none ctype = []
oggstdin_list rb body (some path) ctype = oggstdin_resource rb body path ctype ∷ []

unfoldable pub oggstdin_resources :
    (jenkins_hash : Text → ℕ) → Ringbuffer → ResourceBody → Dictionary → List Resource
oggstdin_resources jenkins_hash rb body config =
    oggstdin_list rb body (dictionary_lookup jenkins_hash config (codes "Path"))
      (ogg_type_or_default (dictionary_lookup jenkins_hash config (codes "Type")))
