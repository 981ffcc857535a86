-- ===== src/Copa/RoundTrip.antt =====
-- src/cfg-parse.c on a whole file of the grammar.
use sighttpd.Prelude.{
  ℕ, suc, zero, ◌+◌, ◌≤◌, ◌<◌, Text, true, false, Option, none, some, List, [], ◌∷◌, ◌++◌, ◌≡◌,
  refl, ◌∙◌, sym, ap, arith, ◌==◌, length, All, All-append, length-append, append_assoc, append-nil,
  subst, drop, ==_ne,
}
use sighttpd.Copa.{
  CopaParser, eof, whitespace, buffer_size, copa_cin, in_class, refill_by, overwrite,
}
use sighttpd.Copa.Parse.{
  Item, copa_peek, skip_loop, copa_skip_over, copa_parse_assignment, parse_rest, copa_parse_line,
  found, parse_lines, initial, copa_read_fd,
}
use sighttpd.Copa.Next.{
  Sees, IsAnswer, AtEnd, seen, length-overwrite, refill_by_end, drop_all, copa_next-Sees,
  copa_next-AtEnd, copa_next_end,
}
use sighttpd.Copa.Reads.{if_true, if_passed, if_false, if_refused}
use sighttpd.Copa.Grammar.{
  Line, note, opening, closing, quoted, bare, line_text, line_item, IsSpace, IsLine,
}
use sighttpd.Copa.Blocks.{IsPlain-line_feed}
use sighttpd.Copa.Line.{copa_parse_line-Sees}

-- The lines of a file, and what they stand for.
abbrev pub file_text : List Line → Text
file_text [] = []
file_text (l ∷ ls) = line_text l ++ 10 ∷ file_text ls

abbrev pub file_items : List Line → List Item
file_items [] = []
file_items (l ∷ ls) = found (line_item l) (file_items ls)

skip_loop_end :
    (w : Text) (p : CopaParser) (fuel : ℕ)
    → length w < fuel
    → IsSpace w
    → Sees p w
    → (q : CopaParser) × (skip_loop fuel false (whitespace ∷ []) p ≡ some q) × AtEnd q
unfolding skip_loop
skip_loop_end w p zero h f s = absurd (omega arith)
skip_loop_end [] p (suc fuel) h f s =
    let (q, r, end) = copa_next_end p fuel s in (q, rw r refl, end)
skip_loop_end (c ∷ w) p (suc fuel) h ((plain, white), f) s =
    let (q, r, s', back) = copa_next-Sees c w s plain fuel in
    let (q', r', end) = skip_loop_end w q fuel (omega arith) f s' in
    (q', rw (r, ==_ne c eof plain.2, white) r', end)

peek_end :
    (p : CopaParser) (fuel : ℕ)
    → AtEnd p
    → (q : CopaParser) × (copa_peek (suc fuel) p ≡ some (eof, q)) × (q.active ≡ false)
unfolding copa_peek
peek_end p fuel (stopped, back, o, i) =
    let (q, r, end) = copa_next-AtEnd p fuel back o i in
    (q, if_passed _ (ap (λ n. n == 0) back) ∙ rw r refl, end.0)

rest_end : (p : CopaParser) (fuel : ℕ) → p.active ≡ false → parse_rest fuel eof p ≡ some (none, p)
unfolding parse_rest copa_parse_assignment in_class
rest_end p fuel h = if_refused _ h

-- The whitespace at the end of the file is the last line.
parse_line_end :
    (w : Text) (p : CopaParser) (fuel : ℕ)
    → length w ≤ fuel
    → IsSpace w
    → Sees p w
    → (q : CopaParser) × (copa_parse_line (suc fuel) p ≡ some (none, q)) × (q.active ≡ false)
unfolding copa_parse_line copa_skip_over
parse_line_end w p fuel h f s =
    let (q, r, end) = skip_loop_end w p (suc fuel) (omega arith) f s in
    let (q', r', stopped) = peek_end q fuel end in
    let over : copa_skip_over (suc fuel) (whitespace ∷ []) p ≡ some q = if_true _ s.active ∙ r in
    (q', rw (over, r') (rest_end q' (suc fuel) stopped), stopped)

-- The loop over the lines has stopped, or goes on with one more.
pub parse_lines_stopped :
    (fuel : ℕ) (p : CopaParser) → p.active ≡ false → parse_lines fuel p ≡ some []
unfolding parse_lines
parse_lines_stopped zero p h = if_false _ h
parse_lines_stopped (suc fuel) p h = if_refused _ h

pub parse_lines_step :
    (fuel : ℕ) (p : CopaParser) (item : Option Item) (q : CopaParser) (items : List Item)
    → p.active ≡ true
    → copa_parse_line (suc fuel) p ≡ some (item, q)
    → parse_lines fuel q ≡ some items
    → parse_lines (suc fuel) p ≡ some (found item items)
unfolding parse_lines
parse_lines_step fuel p item q items h r r' = if_passed _ h ∙ rw (r, r') refl

line_text_nonempty : (l : Line) → IsLine l → 0 < length (line_text l)
line_text_nonempty (note indent rest) f = omega (arith, length-append indent (b'#' ∷ rest))
line_text_nonempty (opening indent block) f =
    omega (arith, length-append indent (b'<' ∷ block ++ b'>' ∷ []))
line_text_nonempty (closing indent block) f =
    omega (arith, length-append indent (b'<' ∷ b'/' ∷ block ++ b'>' ∷ []))
line_text_nonempty (quoted indent name gap value) f =
    let behind : Text = gap ++ (b'"' ∷ value ++ b'"' ∷ []) in
    omega (arith, length-append indent (name ++ b' ' ∷ behind), length-append name (b' ' ∷ behind))
line_text_nonempty (bare indent name gap value) f = omega (
  arith,
  length-append indent (name ++ b' ' ∷ (gap ++ value)),
  length-append name (b' ' ∷ (gap ++ value)),
)

line_feed_white : copa_cin 10 (whitespace ∷ []) ≡ true
unfolding in_class
line_feed_white = refl

parse_lines-Sees :
    (ls : List Line) (w : Text) (p : CopaParser) (fuel : ℕ)
    → length w + length (file_text ls) < fuel
    → IsSpace w
    → All IsLine ls
    → Sees p (w ++ file_text ls)
    → parse_lines fuel p ≡ some (file_items ls)
unfolding found
parse_lines-Sees ls w p zero h f g s = absurd (omega arith)
parse_lines-Sees [] w p (suc fuel) h f g s =
    let (q, r, stopped) =
      parse_line_end w p fuel (omega arith) f (subst (Sees p) (append-nil w) s) in
    parse_lines_step fuel p none q [] s.active r (parse_lines_stopped fuel q stopped)
parse_lines-Sees (l ∷ ls) w p (suc fuel) h f (k, g) s =
    let few = length-append (line_text l) (10 ∷ file_text ls) in
    let some_bytes = line_text_nonempty l k in
    let (q, r, s') = copa_parse_line-Sees l w (file_text ls) fuel (omega arith) f k s in
    let rest =
      parse_lines-Sees ls (10 ∷ []) q fuel (omega arith) ((IsPlain-line_feed, line_feed_white), tt)
        g s' in
    parse_lines_step fuel p (line_item l) q (file_items ls) s.active r rest

-- What the first answers and the buffer of `initial` come to.
abbrev empty_buffer : Text
empty_buffer = 0 ∷ 0 ∷ 0 ∷ 0 ∷ 0 ∷ 0 ∷ 0 ∷ 0 ∷ []

initial-Sees :
    (input : List Text) (t : Text)
    → All IsAnswer input
    → seen empty_buffer input ≡ t
    → 0 < length t
    → (q : CopaParser) × (refill_by input (initial input) ≡ (true, q)) × Sees q t
unfolding refill_by
initial-Sees [] t f h k = absurd (ground arith)
initial-Sees ([] ∷ input) t f h k = absurd (ground arith)
initial-Sees ((b ∷ bs) ∷ input) t ((some_bytes, few), f) h k = (
  _,
  refl,
  record {
    active = refl;
    full = length-overwrite (b ∷ bs) empty_buffer refl few;
    fits = f;
    no_escape = refl;
    no_octal = refl;
    no_hex = refl;
    sees = h;
  },
)

-- A file is read as what its lines stand for, where what the reads put into the buffer, one after the other, is
-- its text.
copa_read_fd-seen :
    (ls : List Line) (input : List Text) (fuel : ℕ)
    → All IsAnswer input
    → All IsLine ls
    → seen empty_buffer input ≡ file_text ls
    → length (file_text ls) < fuel
    → copa_read_fd fuel input ≡ some (file_items ls)
unfolding copa_read_fd refill_by
copa_read_fd-seen [] input fuel f g h k = rw (refill_by_end (initial input) input f h refl) refl
copa_read_fd-seen (l ∷ ls) input fuel f g h k =
    let few = length-append (line_text l) (10 ∷ file_text ls) in
    let (q, r, s) = initial-Sees input (file_text (l ∷ ls)) f h (omega arith) in
    rw r (parse_lines-Sees (l ∷ ls) [] q fuel (omega arith) tt g s)

-- The answers of read(2) one after the other.
abbrev pub concat : List Text → Text
concat [] = []
concat (a ∷ input) = a ++ concat input

abbrev pub IsFull : Text → Type 0
IsFull a = length a ≡ buffer_size

overwrite_full : (a buffer : Text) → length buffer ≡ buffer_size → IsFull a → overwrite a buffer ≡ a
overwrite_full a buffer h k =
    ap (λ u. a ++ u) (drop_all (length a) buffer (omega arith)) ∙ append-nil a

IsFull-IsAnswer : (input : List Text) → All IsFull input → All IsAnswer input
IsFull-IsAnswer [] f = tt
IsFull-IsAnswer (a ∷ input) (h, f) = ((omega (arith, h), omega (arith, h)), IsFull-IsAnswer input f)

-- An answer that fills the buffer is what the parser sees of it.
seen_full :
    (a : Text) (input : List Text) (buffer : Text)
    → length buffer ≡ buffer_size
    → IsFull a
    → seen buffer (a ∷ input) ≡ a ++ seen a input
seen_full [] input buffer h k = absurd (omega (arith, k))
seen_full (b ∷ bs) input buffer h k =
    ap (λ u. u ++ seen u input) (overwrite_full (b ∷ bs) buffer h k)

seen-concat :
    (input : List Text) (buffer : Text)
    → length buffer ≡ buffer_size
    → All IsFull input
    → seen buffer input ≡ concat input
seen-concat [] buffer h f = refl
seen-concat (a ∷ input) buffer h (k, f) =
    seen_full a input buffer h k ∙ ap (λ u. a ++ u) (seen-concat input a k f)

-- Behind a short answer the parser sees the end of the answer before it once more.
seen_short :
    (input : List Text) (last short buffer : Text)
    → length buffer ≡ buffer_size
    → All IsFull input
    → IsFull last
    → 0 < length short
    → seen buffer (input ++ last ∷ short ∷ []) ≡ concat input ++ (last ++ overwrite short last)
seen_short [] last [] buffer h f k l = absurd (omega (arith, l))
seen_short [] last (b ∷ bs) buffer h f k l =
    seen_full last ((b ∷ bs) ∷ []) buffer h k
    ∙ ap (λ u. last ++ u) (append-nil (overwrite (b ∷ bs) last))
seen_short (a ∷ input) last short buffer h (m, f) k l =
    seen_full a (input ++ last ∷ short ∷ []) buffer h m
    ∙ (ap (λ u. a ++ u) (seen_short input last short a m f k l)
        ∙ sym (append_assoc a (concat input) (last ++ overwrite short last)))

-- A file of lines of the grammar whose length is a multiple of the buffer's is parsed, with more fuel
-- than it has bytes, into what the lines stand for, whatever lines these are: comments, block starts and
-- ends, and assignments of quoted and of bare values, each with its indentation.
pub copa_read_fd-file_text :
    (ls : List Line) (input : List Text) (fuel : ℕ)
    → All IsFull input
    → All IsLine ls
    → concat input ≡ file_text ls
    → length (file_text ls) < fuel
    → copa_read_fd fuel input ≡ some (file_items ls)
copa_read_fd-file_text ls input fuel f g h k =
    copa_read_fd-seen ls input fuel (IsFull-IsAnswer input f) g
      (seen-concat input empty_buffer refl f ∙ h) k

-- A file that is read by full answers and then a short one is parsed as if the end of the last full
-- answer, behind as many bytes as the short one has, stood behind it: where the text with these stale bytes is that of lines
-- of the grammar, the items are those of the lines.
pub copa_read_fd_stale :
    (ls : List Line) (input : List Text) (last short : Text) (fuel : ℕ)
    → All IsFull input
    → IsFull last
    → 0 < length short
    → length short ≤ buffer_size
    → All IsLine ls
    → concat input ++ (last ++ (short ++ drop (length short) last)) ≡ file_text ls
    → length (file_text ls) < fuel
    → copa_read_fd fuel (input ++ last ∷ short ∷ []) ≡ some (file_items ls)
copa_read_fd_stale ls input last short fuel f k l m g h fuel_enough =
    copa_read_fd-seen ls (input ++ last ∷ short ∷ []) fuel
      (All-append IsAnswer input (last ∷ short ∷ []) (IsFull-IsAnswer input f)
        ((omega (arith, k), omega (arith, k)), ((l, m), tt)))
      g (seen_short input last short empty_buffer refl f k l ∙ h) fuel_enough
