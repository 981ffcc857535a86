-- ===== src/Ogg/Headers.antt =====
-- How the header pages of the streams that begin together are collected by src/ogg-stdin.c.
use sighttpd.Prelude.{
  ℕ, ◌+◌, ◌≤◌, ◌≡◌, ◌∙◌, refl, sym, ap, subst, true, false, none, some, List, [], if◌then◌else◌,
  arith, Bool-cases, inl, inr, ◌⊎◌,
}
use sighttpd.Ogg.{Page, Oggstdin, tracked, headers_sent}
use sighttpd.Ogg.Tracker.{pending, IsUnique, pending_zero}
use sighttpd.Ogg.Pages.{bytes_of, packets_of, has_stream, Headers, first, begins, goes_on}
use sighttpd.Ogg.Collect.{
  Collects, begin_stream_none, begin_stream_first, begin_stream_next, collect-page,
}

-- However the header pages of streams that begin together take turns: the file has all their bytes in
-- order, each stream is counted with its packets, and `in_headers` is the number of the streams that lack
-- packets of their headers.
pub Headers-Collects :
    {numheaders : ℕ → ℕ} {pages : List Page} {st : Oggstdin}
    → Headers numheaders pages st
    → Collects numheaders pages st
unfolding bytes_of has_stream tracked pending
Headers-Collects {numheaders = nh} (first og st st' continue bos z t e) =
    collect-page nh [] og st (record st { headers_len = 0; offset = 0; in_headers = 1 }) st'
      continue (begin_stream_first og st bos z) (omega arith)
      (record {
        file = record { placed = refl; measured = refl; held = refl };
        counted = λ s. ap (λ list. tracked list s) t;
        unique = subst IsUnique (sym t) tt;
        waits = inl (refl, ground (arith, ap (pending nh) t));
      })
      e
Headers-Collects {numheaders = nh} (begins pages og st st' continue before p bos new e) =
    let c = Headers-Collects before in
    collect-page nh pages og st (record st { in_headers = st.in_headers + 1 }) st' continue
      (begin_stream_next og st bos p) (omega arith)
      (record {
        file = record { placed = c.file.placed; measured = c.file.measured; held = c.file.held };
        counted = c.counted;
        unique = c.unique;
        waits = inl (new, omega (arith, c.waits));
      })
      e
Headers-Collects {numheaders = nh} (goes_on pages og st st' continue before p bos old few e) =
    let c = Headers-Collects before in
    collect-page nh pages og st st st' continue (begin_stream_none og st bos) p
      (record {
        file = c.file;
        counted = c.counted;
        unique = c.unique;
        waits = inr (old, few, c.waits);
      })
      e

-- When each stream that has begun has the packets of its headers, `in_headers` is 0, so that the clients wait
-- no more, and what each of them is sent first is the bytes of all the header pages.
pub Headers_complete :
    {numheaders : ℕ → ℕ} {pages : List Page} {st : Oggstdin}
    → Headers numheaders pages st
    → ((s : ℕ) → has_stream s pages ≡ true → numheaders s ≤ packets_of s pages)
    → (st.in_headers ≡ 0) × (headers_sent st ≡ bytes_of pages)
unfolding headers_sent
Headers_complete {numheaders} {pages} {st} run h =
    let c = Headers-Collects run in
    (
      c.waits
          ∙ pending_zero numheaders st.header_tracker c.unique
              (λ s n e. complete s n (Bool-cases (has_stream s pages)) (sym (c.counted s) ∙ e)),
      c.file.held,
    )
  where
    complete :
        (s n : ℕ)
        → (has_stream s pages ≡ true) ⊎ (has_stream s pages ≡ false)
        → (if has_stream s pages then some (packets_of s pages) else none) ≡ some n
        → numheaders s ≤ n
    complete s n (inl e) q = ground (arith, h s e)
    complete s n (inr e) q = absurd (ground arith)
