-- ===== src/Copa/Blocks.antt =====
-- What src/cfg-parse.c makes of comments and of blocks, and of the start of a line.
use sighttpd.Prelude.{
  ℕ, suc, ◌≤◌, ◌<◌, Text, Bool, true, false, Option, none, some, [], ◌∷◌, ◌++◌, ◌≡◌, refl, ◌∙◌,
  if◌then◌else◌, arith, length, All,
}
use sighttpd.Copa.{
  CopaParser, newline, whitespace, comment, lbracket, rbracket, slash, copa_cin, in_class,
}
use sighttpd.Copa.Parse.{
  Item, block_start, block_end, copa_slurp_to, end_block, parse_block_name, open_block,
  copa_parse_block, parse_rest, copa_parse_line,
}
use sighttpd.Copa.Next.{Sees, IsPlain, copa_next-Sees}
use sighttpd.Copa.Reads.{
  Gives, if_passed, IsWord, copa_peek-Sees, copa_skip_over-Sees, copa_skip_to-Sees,
  copa_slurp_to-Sees, copa_assert_and_pass-Sees,
}
use sighttpd.Copa.Grammar.{IsSpace, IsStart}

-- The line starts behind the whitespace.
pub parse_line-Sees :
    (w : Text) (c : ℕ) (t : Text) {p : CopaParser} (fuel : ℕ)
    → length w ≤ fuel
    → IsSpace w
    → IsPlain c
    → copa_cin c (whitespace ∷ []) ≡ false
    → Sees p (w ++ c ∷ t)
    → (q : CopaParser) × (copa_parse_line (suc fuel) p ≡ parse_rest (suc fuel) c q) × Sees q (c ∷ t)
unfolding copa_parse_line
parse_line-Sees w c t fuel h f plain black s =
    let (q, r, s') =
      copa_skip_over-Sees (whitespace ∷ []) w c t (suc fuel) (omega arith) f plain black s in
    let (q', r', s2) = copa_peek-Sees c t fuel plain s' in (q', rw (r, r') refl, s2)

pub IsPlain-hash : IsPlain b'#'
IsPlain-hash = (ground arith, ground arith, ground arith)

pub IsPlain-line_feed : IsPlain 10
IsPlain-line_feed = (ground arith, ground arith, ground arith)

pub IsPlain-lbracket : IsPlain b'<'
IsPlain-lbracket = (ground arith, ground arith, ground arith)

pub IsPlain-rbracket : IsPlain b'>'
IsPlain-rbracket = (ground arith, ground arith, ground arith)

pub IsPlain-slash : IsPlain b'/'
IsPlain-slash = (ground arith, ground arith, ground arith)

pub IsPlain-space : IsPlain b' '
IsPlain-space = (ground arith, ground arith, ground arith)

pub is_space : copa_cin b' ' (whitespace ∷ []) ≡ true
unfolding in_class
is_space = refl

pub is_newline : copa_cin 10 (comment ∷ newline ∷ []) ≡ true
unfolding in_class
is_newline = refl

pub note-Sees :
    (rest t : Text) {p : CopaParser} (fuel : ℕ)
    → length rest < fuel
    → All (λ d. IsPlain d × (copa_cin d (newline ∷ []) ≡ false)) rest
    → Sees p (b'#' ∷ rest ++ 10 ∷ t)
    → Gives (parse_rest (suc fuel) b'#' p) none (10 ∷ t)
unfolding parse_rest in_class
note-Sees rest t fuel h f s =
    let (q, r, s') =
      copa_skip_to-Sees (newline ∷ []) (b'#' ∷ rest) 10 t (suc fuel) (omega arith)
        ((IsPlain-hash, refl), f) IsPlain-line_feed refl s in
    (q, rw r refl, s')

-- A block's name, up to its bracket, and the bracket.
abbrev pub block_item : Bool → Text → Item
block_item true block = block_end block
block_item false block = block_start block

end_block_cases :
    (end : Bool) (block : Text) (q : CopaParser)
    → Path
        (Option (Option Item × CopaParser))
        (some (if end then some (block_end block) else some (block_start block), q))
        (some (some (block_item end block), q))
end_block_cases true block q = refl
end_block_cases false block q = refl

module _ (end : Bool) (block t : Text) {p : CopaParser} (fuel : ℕ) (h : length block ≤ fuel)
    (f : IsWord (rbracket ∷ []) (comment ∷ newline ∷ []) block) where
  block_name-Sees :
      Sees p (block ++ b'>' ∷ t)
      → (q : CopaParser) × (copa_slurp_to (suc fuel) (rbracket ∷ []) (comment ∷ newline ∷ []) p
          ≡ some (some block, q))
        × Gives (end_block (suc fuel) end (some block) q) (some (block_item end block)) t
  unfolding end_block in_class
  block_name-Sees s =
      let (q, r, s') =
        copa_slurp_to-Sees (rbracket ∷ []) (comment ∷ newline ∷ []) b'>' t IsPlain-rbracket refl
          block p (suc fuel) (omega arith) f s in
      let (q', r', s2) =
        copa_assert_and_pass-Sees (rbracket ∷ []) b'>' t fuel IsPlain-rbracket refl s' in
      (q, r, (q', rw r' (end_block_cases end block q'), s2))

-- A line that starts with `<`.
rest-block :
    (c : ℕ) (t : Text) {p : CopaParser} (fuel : ℕ)
    → IsPlain c
    → Sees p (b'<' ∷ c ∷ t)
    → (q : CopaParser) × (parse_rest (suc fuel) b'<' p ≡ parse_block_name (suc fuel) c q)
      × Sees q (c ∷ t)
unfolding parse_rest copa_parse_block open_block in_class
rest-block c t fuel plain s =
    let (q, r, s') =
      copa_assert_and_pass-Sees (lbracket ∷ []) b'<' (c ∷ t) fuel IsPlain-lbracket refl s in
    let (q', r', s2) = copa_peek-Sees c t fuel plain s' in
    (q', if_passed _ s.active ∙ rw (r, r') refl, s2)

pub opening-Sees :
    (block t : Text) {p : CopaParser} (fuel : ℕ)
    → length block ≤ fuel
    → IsStart block (slash ∷ [])
    → IsWord (rbracket ∷ []) (comment ∷ newline ∷ []) block
    → Sees p (b'<' ∷ block ++ b'>' ∷ t)
    → Gives (parse_rest (suc fuel) b'<' p) (some (block_start block)) t
unfolding parse_block_name
opening-Sees [] t fuel h start f s = absurd start
opening-Sees (c ∷ block) t fuel h (plain, start) f s =
    let (q, r, s') = rest-block c (block ++ b'>' ∷ t) fuel plain s in
    let (q', r', (q2, r2, s2)) = block_name-Sees false (c ∷ block) t fuel h f s' in
    (q2, r ∙ rw (start, r') r2, s2)

pub closing-Sees :
    (block t : Text) {p : CopaParser} (fuel : ℕ)
    → length block ≤ fuel
    → IsWord (rbracket ∷ []) (comment ∷ newline ∷ []) block
    → Sees p (b'<' ∷ b'/' ∷ block ++ b'>' ∷ t)
    → Gives (parse_rest (suc fuel) b'<' p) (some (block_end block)) t
unfolding parse_block_name in_class
closing-Sees block t fuel h f s =
    let (q, r, s') = rest-block b'/' (block ++ b'>' ∷ t) fuel IsPlain-slash s in
    let (q', r', s2, back) = copa_next-Sees b'/' (block ++ b'>' ∷ t) s' IsPlain-slash fuel in
    let (q2, r2, (q3, r3, s3)) = block_name-Sees true block t fuel h f s2 in
    (q3, r ∙ rw (r', r2) r3, s3)
