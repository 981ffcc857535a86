-- ===== src/Copa/Line.antt =====
-- `copa_parse_line` of src/cfg-parse.c on one line of the grammar.
use sighttpd.Prelude.{
  ℕ, suc, ◌+◌, ◌≤◌, ◌<◌, Text, false, [], ◌∷◌, ◌++◌, ◌≡◌, refl, ◌∙◌, subst, ap, sym, arith, length,
  length-append, append_assoc,
}
use sighttpd.Copa.{CopaParser, whitespace, copa_cin, in_class}
use sighttpd.Copa.Parse.{parse_rest, copa_parse_line}
use sighttpd.Copa.Next.{Sees, IsPlain}
use sighttpd.Copa.Reads.{Gives}
use sighttpd.Copa.Grammar.{
  Line, note, opening, closing, quoted, bare, line_text, line_item, IsSpace, IsLine,
}
use sighttpd.Copa.Blocks.{
  parse_line-Sees, IsPlain-hash, IsPlain-lbracket, note-Sees, opening-Sees, closing-Sees,
}
use sighttpd.Copa.Lines.{quoted_rest-Sees, bare_rest-Sees}

IsSpace-append : (w v : Text) → IsSpace w → IsSpace v → IsSpace (w ++ v)
IsSpace-append [] v f g = g
IsSpace-append (c ∷ w) v (h, f) g = (h, IsSpace-append w v f g)

-- A line behind whitespace `w`, up to its line feed.
module _ (w indent : Text) (c : ℕ) (rest t : Text) {p : CopaParser} (fuel : ℕ)
    (h : length w + length (indent ++ c ∷ rest) ≤ fuel) (g : IsSpace w) (f : IsSpace indent)
    (plain : IsPlain c) (black : copa_cin c (whitespace ∷ []) ≡ false)
    (s : Sees p (w ++ ((indent ++ c ∷ rest) ++ 10 ∷ t))) where
  start-Sees :
      (q : CopaParser) × (copa_parse_line (suc fuel) p ≡ parse_rest (suc fuel) c q)
      × Sees q (c ∷ rest ++ 10 ∷ t)
      × (length rest < fuel)
  start-Sees =
      let few = length-append indent (c ∷ rest) in
      let text =
        ap (λ u. w ++ u) (append_assoc indent (c ∷ rest) (10 ∷ t))
        ∙ sym (append_assoc w indent (c ∷ rest ++ 10 ∷ t)) in
      let (q, r, s') =
        parse_line-Sees (w ++ indent) c (rest ++ 10 ∷ t) fuel
          (omega (arith, length-append w indent)) (IsSpace-append w indent g f) plain black
          (subst (Sees p) text s) in
      (q, r, s', omega arith)

pub copa_parse_line-Sees :
    (l : Line) (w t : Text) {p : CopaParser} (fuel : ℕ)
    → length w + length (line_text l) ≤ fuel
    → IsSpace w
    → IsLine l
    → Sees p (w ++ (line_text l ++ 10 ∷ t))
    → Gives (copa_parse_line (suc fuel) p) (line_item l) (10 ∷ t)
unfolding in_class
copa_parse_line-Sees (note indent rest) w t fuel h g (i, f) s =
    let (q, r, s', few) = start-Sees w indent b'#' rest t fuel h g i IsPlain-hash refl s in
    let (q', r', s2) = note-Sees rest t fuel few f s' in (q', r ∙ r', s2)
copa_parse_line-Sees (opening indent block) w t fuel h g (i, start, f) s =
    let (q, r, s', few) =
      start-Sees w indent b'<' (block ++ b'>' ∷ []) t fuel h g i IsPlain-lbracket refl s in
    let few' : length block ≤ fuel = omega (arith, length-append block (b'>' ∷ [])) in
    let (q', r', s2) =
      opening-Sees block (10 ∷ t) fuel few' start f
        (rw (append_assoc block (b'>' ∷ []) (10 ∷ t)) at s') in
    (q', r ∙ r', s2)
copa_parse_line-Sees (closing indent block) w t fuel h g (i, f) s =
    let (q, r, s', few) =
      start-Sees w indent b'<' (b'/' ∷ block ++ b'>' ∷ []) t fuel h g i IsPlain-lbracket refl s in
    let few' : length block ≤ fuel = omega (arith, length-append block (b'>' ∷ [])) in
    let (q', r', s2) =
      closing-Sees block (10 ∷ t) fuel few' f
        (rw (append_assoc block (b'>' ∷ []) (10 ∷ t)) at s') in
    (q', r ∙ r', s2)
copa_parse_line-Sees (quoted indent [] gap value) w t fuel h g f s = absurd f.1
copa_parse_line-Sees (quoted indent (c ∷ name) gap value) w t fuel h g (i, (plain, start), f, k, v)
      s =
    let (q, r, s', few) =
      start-Sees w indent c (name ++ b' ' ∷ (gap ++ (b'"' ∷ value ++ b'"' ∷ []))) t fuel h g i plain
        f.0.1 s in
    let (q', r', s2) = quoted_rest-Sees c name gap value (10 ∷ t) fuel few start f k v s' in
    (q', r ∙ r', s2)
copa_parse_line-Sees (bare indent [] gap value) w t fuel h g f s = absurd f.1
copa_parse_line-Sees (bare indent (c ∷ name) gap []) w t fuel h g f s = absurd f.4
copa_parse_line-Sees (bare indent (c ∷ name) gap (d ∷ value)) w t fuel h g
      (i, (plain, start), f, k, (d_plain, v), u) s =
    let (q, r, s', few) =
      start-Sees w indent c (name ++ b' ' ∷ (gap ++ d ∷ value)) t fuel h g i plain f.0.1 s in
    let (q', r', s2) = bare_rest-Sees c name gap d value t fuel few start f k v u s' in
    (q', r ∙ r', s2)
