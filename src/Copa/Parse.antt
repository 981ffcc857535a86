-- ===== src/Copa/Parse.antt =====
-- src/cfg-parse.c from `copa_next` on: what the parser makes of the characters.
use sighttpd.Prelude.{
  ℕ, suc, zero, Text, Bool, true, false, not, Option, none, some, List, [], ◌∷◌, ◌++◌, ◌==◌,
  if◌then◌else◌, ◌>>=◌,
}
use sighttpd.Copa.{
  CopaParser, eof, CharClass, newline, whitespace, comment, lbracket, rbracket, dquote, squote,
  slash, copa_cin, refill_by, next_loop,
}

-- What the callbacks are called with.
pub data Item : Type 0 where
  assignment : (name value : Text) → Item
  block_start block_end : Text → Item

abbrev pub keep : ℕ → CopaParser → CopaParser
keep c p = record p { pushback = c }

abbrev pub stop : CopaParser → CopaParser
stop p = record p { active = false }

-- `copa_next`
unfoldable pub copa_next : ℕ → CopaParser → Option (ℕ × CopaParser)
copa_next fuel p = if p.pushback == 0 then next_loop fuel p else some (p.pushback, keep 0 p)

-- `copa_peek`
unfoldable pub copa_peek : ℕ → CopaParser → Option (ℕ × CopaParser)
copa_peek fuel p =
    if not (p.pushback == 0)
    then some (p.pushback, p)
    else (do (c, q) ← copa_next fuel p; some (c, if c == eof then q else keep c q))

-- The loops of `copa_skip_over` and `copa_skip_to`: up to a character that is in the classes, or not
-- in them, as `wanted` says.
unfoldable pub skip_loop : ℕ → Bool → List CharClass → CopaParser → Option CopaParser
skip_loop zero wanted classes p = none
skip_loop (suc fuel) wanted classes p = do
  (c, q) ← copa_next (suc fuel) p
  let more = skip_loop fuel wanted classes q
  (if c == eof
      then some q
      else if copa_cin c classes
      then (if wanted then some (keep c q) else more)
      else if wanted
      then more
      else some (keep c q))

unfoldable pub copa_skip_over : ℕ → List CharClass → CopaParser → Option CopaParser
copa_skip_over fuel classes p = if p.active then skip_loop fuel false classes p else some p

unfoldable pub copa_skip_to : ℕ → List CharClass → CopaParser → Option CopaParser
copa_skip_to fuel classes p = if p.active then skip_loop fuel true classes p else some p

-- The loop of `copa_slurp_to`, with what has been read; the text `none` is NULL.
unfoldable pub slurp_loop :
    ℕ → (good_end bad_end : List CharClass) → Text → CopaParser → Option (Option Text × CopaParser)
slurp_loop zero good_end bad_end ret p = none
slurp_loop (suc fuel) good_end bad_end ret p = do
  (c, q) ← copa_next (suc fuel) p
  let more = slurp_loop fuel good_end bad_end (ret ++ c ∷ []) q
  (if c == eof
      then some (some ret, q)
      else if copa_cin c good_end
      then some (some ret, keep c q)
      else if copa_cin c bad_end
      then some (none, stop (keep c q))
      else more)

unfoldable pub copa_slurp_to :
    ℕ → (good_end bad_end : List CharClass) → CopaParser → Option (Option Text × CopaParser)
copa_slurp_to fuel good_end bad_end p =
    if p.active then slurp_loop fuel good_end bad_end [] p else some (none, p)

unfoldable pub copa_assert_and_pass : ℕ → List CharClass → CopaParser → Option (Bool × CopaParser)
copa_assert_and_pass fuel classes p = if not p.active then some (false, p) else (do
  (c, q) ← copa_next fuel p
  some (if copa_cin c classes then (true, q) else (false, stop q)))

-- `copa_slurp_quoted` behind the quote, which is of the class `quote`.
unfoldable pub end_quoted :
    ℕ → List CharClass → Option Text → CopaParser → Option (Option Text × CopaParser)
end_quoted fuel quote none p = some (none, p)
end_quoted fuel quote (some ret) p = do
  (passed, q) ← copa_assert_and_pass fuel quote p
  some (if passed then some ret else none, q)

unfoldable pub copa_slurp_quoted : ℕ → CopaParser → Option (Option Text × CopaParser)
copa_slurp_quoted fuel p = if not p.active then some (none, p) else (do
  (c, q) ← copa_next fuel p
  let quote = if copa_cin c (squote ∷ []) then squote ∷ [] else dquote ∷ []
  (ret, r) ← copa_slurp_to fuel quote [] q
  end_quoted fuel quote ret r)

-- `copa_slurp_lineval`; it tests `active` as `copa_slurp_to` does.
unfoldable pub copa_slurp_lineval : ℕ → CopaParser → Option (Option Text × CopaParser)
copa_slurp_lineval fuel p = copa_slurp_to fuel (comment ∷ newline ∷ []) [] p

-- The end of `copa_parse_assignment`, by its value.
unfoldable pub end_assignment : Text → Option Text → CopaParser → Option Item × CopaParser
end_assignment name none p = (none, stop p)
end_assignment name (some value) p = (some (assignment name value), p)

-- `copa_parse_assignment` behind the name.
unfoldable pub parse_value : ℕ → Option Text → CopaParser → Option (Option Item × CopaParser)
parse_value fuel none p = some (none, p)
parse_value fuel (some name) p = do
  q ← copa_skip_over fuel (whitespace ∷ []) p
  (c, r) ← copa_peek fuel q
  (value, s) ←
      if copa_cin c (dquote ∷ squote ∷ [])
      then copa_slurp_quoted fuel r
      else copa_slurp_lineval fuel r
  some (end_assignment name value s)

unfoldable pub copa_parse_assignment : ℕ → CopaParser → Option (Option Item × CopaParser)
copa_parse_assignment fuel p = if not p.active then some (none, p) else (do
  (name, q) ← copa_slurp_to fuel (whitespace ∷ []) (comment ∷ newline ∷ []) p
  parse_value fuel name q)

-- `copa_parse_block` behind the name of the block.
unfoldable pub end_block :
    ℕ → (end : Bool) → Option Text → CopaParser → Option (Option Item × CopaParser)
end_block fuel end none p = some (none, p)
end_block fuel end (some block) p = do
  (passed, q) ← copa_assert_and_pass fuel (rbracket ∷ []) p
  some (
    if not passed then none else if end then some (block_end block) else some (block_start block),
    q,
  )

-- `copa_parse_block` behind `<`, by the next character `c`.
unfoldable pub parse_block_name : ℕ → ℕ → CopaParser → Option (Option Item × CopaParser)
parse_block_name fuel c p = do
  let end = copa_cin c (slash ∷ [])
  (d, q) ← if end then copa_next fuel p else some (c, p)
  (block, r) ← copa_slurp_to fuel (rbracket ∷ []) (comment ∷ newline ∷ []) q
  end_block fuel end block r

-- `copa_parse_block` behind the test for `<`.
unfoldable pub open_block : ℕ → Bool → CopaParser → Option (Option Item × CopaParser)
open_block fuel passed p =
    if not passed then some (none, p) else (do (c, q) ← copa_peek fuel p; parse_block_name fuel c q)

unfoldable pub copa_parse_block : ℕ → CopaParser → Option (Option Item × CopaParser)
copa_parse_block fuel p =
    if not p.active
    then some (none, p)
    else (do (passed, q) ← copa_assert_and_pass fuel (lbracket ∷ []) p; open_block fuel passed q)

-- `copa_parse_line` behind the whitespace, by the next character `c`.
unfoldable pub parse_rest : ℕ → ℕ → CopaParser → Option (Option Item × CopaParser)
parse_rest fuel c p =
    if copa_cin c (comment ∷ [])
    then (do q ← copa_skip_to fuel (newline ∷ []) p; some (none, q))
    else if copa_cin c (lbracket ∷ [])
    then copa_parse_block fuel p
    else copa_parse_assignment fuel p

unfoldable pub copa_parse_line : ℕ → CopaParser → Option (Option Item × CopaParser)
copa_parse_line fuel p = do
  q ← copa_skip_over fuel (whitespace ∷ []) p
  (c, r) ← copa_peek fuel q
  parse_rest fuel c r

-- An item found, in front of the others.
unfoldable pub found : Option Item → List Item → List Item
found none items = items
found (some item) items = item ∷ items

-- `while (parser.active) copa_parse_line (&parser);` with what is found.
unfoldable pub parse_lines : ℕ → CopaParser → Option (List Item)
parse_lines zero p = if p.active then none else some []
parse_lines (suc fuel) p = if not p.active then some [] else (do
  (item, q) ← copa_parse_line (suc fuel) p
  items ← parse_lines fuel q
  some (found item items))

-- The parser that `copa_read_fd` starts with.
abbrev pub initial : List Text → CopaParser
initial input = record {
  read_buffer = 0 ∷ 0 ∷ 0 ∷ 0 ∷ 0 ∷ 0 ∷ 0 ∷ 0 ∷ [];
  input = input;
  active = true;
  pushback = 0;
  numchar = 0;
  escape = false;
  octal = 0;
  hex = 0;
  offset = 0;
}

-- `copa_read_fd`: nothing where the first read fails (COPA_SYS_ERR), else what is found.
unfoldable pub copa_read_fd : ℕ → List Text → Option (List Item)
copa_read_fd fuel input =
    let p = refill_by input (initial input) in if not p.0 then some [] else parse_lines fuel p.1
