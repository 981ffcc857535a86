-- ===== src/Stream.antt =====
-- src/stream.c and src/fdstream.c: a thread that fills a ring buffer from a descriptor, and the clients
-- that each read it in a thread of their own. The functions of the ring buffer are the steps, and the
-- threads take turns in any order.
pub mod Order
mod Tests
use sighttpd.Prelude.{
  ℕ, ◌+◌, ◌<◌, ◌≢◌, ◌≡◌, Text, Option, none, some, List, [], ◌∷◌, ◌++◌, codes, length, strn_eq,
}
use sighttpd.Params.{append}
use sighttpd.Request.{Request}
use sighttpd.Status.{ok, http_status_line}
use sighttpd.Dictionary.{Dictionary, dictionary_lookup}
use sighttpd.Resource.{Resource, ResourceCheck, ResourceHead, ResourceBody, resource_new}
use sighttpd.Ringbuffer.{Ringbuffer, max_readers, avail, open_reader, close_reader}
use sighttpd.Ringbuffer.Transfer.{ReadAnswer, got, readfd, writefd}
use sighttpd.Ringbuffer.Fill.{IsRead, bytes_read}
use sighttpd.Ringbuffer.Send.{IsWrite}

-- `struct fdstream`, less its stream
pub record Fdstream : Type 0 where
  pub path : Text
  pub content_type : Text

unfoldable pub fdstream_check : Fdstream → ResourceCheck
fdstream_check st request = strn_eq request.path st.path (length st.path)

-- It adds to the list of headers in place, which is not empty.
unfoldable pub fdstream_head : Fdstream → ResourceHead
fdstream_head st request request_headers response_headers = (
  http_status_line ok,
  append response_headers (some (codes "Content-Type")) (some st.content_type),
)

-- `fdstream_resource` where its stream opens; what a client is sent of the stream is `body`.
unfoldable pub fdstream_resource : (path : Text) → ResourceBody → (content_type : Text) → Resource
fdstream_resource path body content_type =
    let st : Fdstream = record { path = path; content_type = content_type } in
    resource_new (fdstream_check st) (fdstream_head st) body

-- `if (!ctype) ctype = DEFAULT_CONTENT_TYPE;`
unfoldable pub type_or_default : Option Text → Text
type_or_default none = codes "video/mp4"
type_or_default (some ctype) = ctype

-- `if (path) ... l = list_append (l, r)` on a list that is empty.
unfoldable pub fdstream_list : Option Text → ResourceBody → Text → List Resource
fdstream_list none body ctype = []
fdstream_list (some path) body ctype = fdstream_resource path body ctype ∷ []

unfoldable pub fdstream_resources :
    (jenkins_hash : Text → ℕ) → ResourceBody → Dictionary → List Resource
fdstream_resources jenkins_hash body config =
    fdstream_list (dictionary_lookup jenkins_hash config (codes "Path")) body
      (type_or_default (dictionary_lookup jenkins_hash config (codes "Type")))

-- What happens to the ring buffer `s` while one `fdstream_body` has the descriptor `i`: `Run i s fed sent`
-- says that since `ringbuffer_open` gave it `i`, the writer has read the bytes `fed`, and the client has been
-- sent the bytes `sent`.
pub data Run (i : ℕ) : Ringbuffer → (fed sent : Text) → Type 0 where
  -- `rd = ringbuffer_open (&stream->rb)`
  opened : (r s : Ringbuffer) → open_reader r ≡ (some i, s) → Run i s [] []
  -- `n = ringbuffer_readfd (stream->input_fd, &stream->rb)` in `stream_writer`
  feed :
      (r s : Ringbuffer) (fed sent : Text) (first second : ℕ → ReadAnswer) (n : Option ℕ)
      → Run i r fed sent
      → readfd first second r ≡ some (n, s)
      → Run i s (fed ++ bytes_read first second r) sent
  -- `n = ringbuffer_writefd (fd, &stream->rb, rd)` in this `fdstream_body`
  send :
      (r s : Ringbuffer) (fed sent t : Text) (first second : ℕ → Option ℕ) (n : Option ℕ)
      → Run i r fed sent
      → writefd first second r i ≡ some (n, t, s)
      → Run i s fed (sent ++ t)
  -- the same of another client, and one that comes or goes
  other_send :
      (r s : Ringbuffer) (fed sent t : Text) (j : ℕ) (first second : ℕ → Option ℕ) (n : Option ℕ)
      → Run i r fed sent
      → writefd first second r j ≡ some (n, t, s)
      → Run i s fed sent
  other_open :
      (r s : Ringbuffer) (fed sent : Text) (o : Option ℕ)
      → Run i r fed sent
      → open_reader r ≡ (o, s)
      → Run i s fed sent
  other_close :
      (r : Ringbuffer) (fed sent : Text) (j : ℕ)
      → Run i r fed sent
      → Run i (close_reader r j) fed sent
