-- ===== src/Ogg/File.antt =====
-- The file of header pages of src/ogg-stdin.c.
use sighttpd.Prelude.{
  ℕ, ◌+◌, ◌≡◌, ◌∙◌, sym, ap, Text, ◌++◌, arith, length, take, drop, append_assoc, length-append,
  take-length-append, take_congr,
}
use sighttpd.Ogg.{Oggstdin, file_write, write_headers}

-- The file holds the bytes `kept` up to its position, which is `headers_len`.
pub record HasFile (kept : Text) (st : Oggstdin) : Type 0 where
  pub placed : st.offset ≡ st.headers_len
  pub measured : st.headers_len ≡ length kept
  pub held : take st.headers_len st.headers ≡ kept

file_write_lem :
    (file : Text) (offset : ℕ) (kept t : Text)
    → offset ≡ length kept
    → take offset file ≡ kept
    → take (offset + length t) (file_write file offset t) ≡ kept ++ t
unfolding file_write
file_write_lem file offset kept t e h = rw h (
    take_congr (offset + length t) (length (kept ++ t))
      (kept ++ (t ++ drop (offset + length t) file)) (omega (arith, e, length-append kept t))
    ∙ (ap (take (length (kept ++ t))) (sym (append_assoc kept t (drop (offset + length t) file)))
        ∙ take-length-append (kept ++ t) (drop (offset + length t) file)))

pub write_headers-HasFile :
    (kept t : Text) (st : Oggstdin) → HasFile kept st → HasFile (kept ++ t) (write_headers t st)
unfolding write_headers
write_headers-HasFile kept t st f = record {
  placed = omega (arith, f.placed);
  measured = omega (arith, f.measured, length-append kept t);
  held =
      take_congr (st.headers_len + length t) (st.offset + length t)
        (file_write st.headers st.offset t) (omega (arith, f.placed))
      ∙ file_write_lem st.headers st.offset kept t (f.placed ∙ f.measured)
          (take_congr st.offset st.headers_len st.headers f.placed ∙ f.held);
}
