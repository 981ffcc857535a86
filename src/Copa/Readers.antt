-- ===== src/Copa/Readers.antt =====
-- No function of src/cfg-parse.c leaves more to read than there was, and each ends with as much fuel.
use sighttpd.Prelude.{
  ℕ, ◌≤◌, ◌<◌, Text, Bool, true, false, not, Option, none, some, List, [], ◌∷◌, ◌≡◌, inl, inr, refl,
  ◌∙◌, arith, ◌==◌, if◌then◌else◌, Bool-cases,
}
use sighttpd.Copa.{
  CopaParser, CharClass, newline, whitespace, comment, lbracket, rbracket, dquote, squote, slash,
  copa_cin, eof,
}
use sighttpd.Copa.Parse.{
  block_start, block_end, copa_next, keep, stop, copa_peek, copa_skip_over, copa_skip_to,
  copa_slurp_to, copa_assert_and_pass, end_quoted, copa_slurp_quoted, copa_slurp_lineval,
  end_assignment, parse_value, copa_parse_assignment, end_block, parse_block_name, open_block,
  copa_parse_block, parse_rest,
}
use sighttpd.Copa.Reads.{if_true, if_false, if_passed, if_refused}
use sighttpd.Copa.Ends.{
  weight, Ends, copa_next-Takes, taken_le, taken_less, ne_eof, skip_loop-Ends, slurp_loop-Ends,
  keep_le,
}

pub skip_over-Ends :
    (fuel : ℕ) (classes : List CharClass) (p : CopaParser)
    → weight p < fuel
    → (q : CopaParser) × (copa_skip_over fuel classes p ≡ some q) × (weight q ≤ weight p)
unfolding copa_skip_over
skip_over-Ends fuel classes p h = elim (Bool-cases p.active) [
  | inl e ↦ let (q, r, l) = skip_loop-Ends fuel false classes p h in (q, if_true _ e ∙ r, l)
  | inr e ↦ (p, if_false _ e, omega arith)
]

pub skip_to-Ends :
    (fuel : ℕ) (classes : List CharClass) (p : CopaParser)
    → weight p < fuel
    → (q : CopaParser) × (copa_skip_to fuel classes p ≡ some q) × (weight q ≤ weight p)
unfolding copa_skip_to
skip_to-Ends fuel classes p h = elim (Bool-cases p.active) [
  | inl e ↦ let (q, r, l) = skip_loop-Ends fuel true classes p h in (q, if_true _ e ∙ r, l)
  | inr e ↦ (p, if_false _ e, omega arith)
]

pub slurp_to-Ends :
    (fuel : ℕ) (good_end bad_end : List CharClass) (p : CopaParser)
    → weight p < fuel
    → Ends (weight p) (copa_slurp_to fuel good_end bad_end p)
unfolding copa_slurp_to
slurp_to-Ends fuel good_end bad_end p h = elim (Bool-cases p.active) [
  | inl e ↦
      let (o, q, r, l) = slurp_loop-Ends fuel good_end bad_end [] p h in (o, q, if_true _ e ∙ r, l)
  | inr e ↦ (none, p, if_false _ e, omega arith)
]

pub assert_and_pass-Ends :
    (fuel : ℕ) (classes : List CharClass) (p : CopaParser)
    → weight p < fuel
    → Ends (weight p) (copa_assert_and_pass fuel classes p)
unfolding copa_assert_and_pass
assert_and_pass-Ends fuel classes p h = elim (Bool-cases p.active) [
  | inl e ↦
      let (c, q, r, ne, t) = copa_next-Takes fuel p h in
      let less = taken_le t in
      elim (Bool-cases (copa_cin c classes)) [
        | inl f ↦ (true, q, if_passed _ e ∙ rw (r, f) refl, less)
        | inr f ↦ (false, stop q, if_passed _ e ∙ rw (r, f) refl, less)
      ]
  | inr e ↦ (false, p, if_refused _ e, omega arith)
]

pub peek-Ends : (fuel : ℕ) (p : CopaParser) → weight p < fuel → Ends (weight p) (copa_peek fuel p)
unfolding copa_peek
peek-Ends fuel p h = elim (Bool-cases (p.pushback == 0)) [
  | inr e ↦ (p.pushback, p, if_refused _ e, omega arith)
  | inl e ↦
      let (c, q, r, ne, t) = copa_next-Takes fuel p h in
      elim (Bool-cases (c == eof)) [
        | inl f ↦ (c, q, if_passed _ e ∙ rw (r, f) refl, taken_le t)
        | inr f ↦
            let less = taken_less (ne_eof c f) t in
            let kept = keep_le c q in (c, keep c q, if_passed _ e ∙ rw (r, f) refl, omega arith)
      ]
]

end_quoted-Ends :
    (fuel : ℕ) (quote : List CharClass) (ret : Option Text) (p : CopaParser)
    → weight p < fuel
    → Ends (weight p) (end_quoted fuel quote ret p)
unfolding end_quoted
end_quoted-Ends fuel quote none p h = (none, p, refl, omega arith)
end_quoted-Ends fuel quote (some ret) p h =
    let (passed, q, r, l) = assert_and_pass-Ends fuel quote p h in
    (if passed then some ret else none, q, rw r refl, l)

slurp_quoted-Ends :
    (fuel : ℕ) (p : CopaParser) → weight p < fuel → Ends (weight p) (copa_slurp_quoted fuel p)
unfolding copa_slurp_quoted
slurp_quoted-Ends fuel p h = elim (Bool-cases p.active) [
  | inr e ↦ (none, p, if_refused _ e, omega arith)
  | inl e ↦
      let (c, q, r, ne, t) = copa_next-Takes fuel p h in
      let less = taken_le t in
      let quote : List CharClass = if copa_cin c (squote ∷ []) then squote ∷ [] else dquote ∷ [] in
      let (ret, q', r', l') = slurp_to-Ends fuel quote [] q (omega arith) in
      let (o, q2, r2, l2) = end_quoted-Ends fuel quote ret q' (omega arith) in
      (o, q2, if_passed _ e ∙ rw (r, r') r2, omega arith)
]

end_assignment-weight :
    (name : Text) (value : Option Text) (p : CopaParser)
    → weight (end_assignment name value p).1 ≤ weight p
unfolding end_assignment
end_assignment-weight name none p = omega arith
end_assignment-weight name (some value) p = omega arith

value-Ends :
    (fuel c : ℕ) (p : CopaParser)
    → weight p < fuel
    → Ends (weight p) (
        if copa_cin c (dquote ∷ squote ∷ [])
        then copa_slurp_quoted fuel p
        else copa_slurp_lineval fuel p)
unfolding copa_slurp_lineval
value-Ends fuel c p h = elim (Bool-cases (copa_cin c (dquote ∷ squote ∷ []))) [
  | inl e ↦ rw e (slurp_quoted-Ends fuel p h)
  | inr e ↦ rw e (slurp_to-Ends fuel (comment ∷ newline ∷ []) [] p h)
]

pub parse_value-Ends :
    (fuel : ℕ) (name : Option Text) (p : CopaParser)
    → weight p < fuel
    → Ends (weight p) (parse_value fuel name p)
unfolding parse_value
parse_value-Ends fuel none p h = (none, p, refl, omega arith)
parse_value-Ends fuel (some name) p h =
    let (q, r, l) = skip_over-Ends fuel (whitespace ∷ []) p h in
    let (c, q2, r2, l2) = peek-Ends fuel q (omega arith) in
    let (value, q3, r3, l3) = value-Ends fuel c q2 (omega arith) in
    let last = end_assignment-weight name value q3 in
    (
      (end_assignment name value q3).0,
      (end_assignment name value q3).1,
      rw (r, r2, r3) refl,
      omega arith,
    )

end_block-Ends :
    (fuel : ℕ) (end : Bool) (block : Option Text) (p : CopaParser)
    → weight p < fuel
    → Ends (weight p) (end_block fuel end block p)
unfolding end_block
end_block-Ends fuel end none p h = (none, p, refl, omega arith)
end_block-Ends fuel end (some block) p h =
    let (passed, q, r, l) = assert_and_pass-Ends fuel (rbracket ∷ []) p h in
    (
      if not passed then none else if end then some (block_end block) else some (block_start block),
      q,
      rw r refl,
      l,
    )

-- The `/` of a block's end is passed.
slash-Ends :
    (fuel c : ℕ) (p : CopaParser)
    → weight p < fuel
    → Ends (weight p) (if copa_cin c (slash ∷ []) then copa_next fuel p else some (c, p))
slash-Ends fuel c p h = elim (Bool-cases (copa_cin c (slash ∷ []))) [
  | inl e ↦ let (d, q, r, ne, t) = copa_next-Takes fuel p h in (d, q, if_true _ e ∙ r, taken_le t)
  | inr e ↦ (c, p, if_false _ e, omega arith)
]

block_name-Ends :
    (fuel c : ℕ) (p : CopaParser) → weight p < fuel → Ends (weight p) (parse_block_name fuel c p)
unfolding parse_block_name
block_name-Ends fuel c p h =
    let (d, q, r, l) = slash-Ends fuel c p h in
    let (block, q2, r2, l2) =
      slurp_to-Ends fuel (rbracket ∷ []) (comment ∷ newline ∷ []) q (omega arith) in
    let (o, q3, r3, l3) = end_block-Ends fuel (copa_cin c (slash ∷ [])) block q2 (omega arith) in
    (o, q3, rw (r, r2) r3, omega arith)

pub open_block-Ends :
    (fuel : ℕ) (passed : Bool) (p : CopaParser)
    → weight p < fuel
    → Ends (weight p) (open_block fuel passed p)
unfolding open_block
open_block-Ends fuel false p h = (none, p, refl, omega arith)
open_block-Ends fuel true p h =
    let (c, q, r, l) = peek-Ends fuel p h in
    let (o, q2, r2, l2) = block_name-Ends fuel c q (omega arith) in (o, q2, rw r r2, omega arith)

block-Ends :
    (fuel : ℕ) (p : CopaParser) → weight p < fuel → Ends (weight p) (copa_parse_block fuel p)
unfolding copa_parse_block
block-Ends fuel p h = elim (Bool-cases p.active) [
  | inr e ↦ (none, p, if_refused _ e, omega arith)
  | inl e ↦
      let (b, q, r, l) = assert_and_pass-Ends fuel (lbracket ∷ []) p h in
      let (o, q2, r2, l2) = open_block-Ends fuel b q (omega arith) in
      (o, q2, if_passed _ e ∙ rw r r2, omega arith)
]

assignment-Ends :
    (fuel : ℕ) (p : CopaParser) → weight p < fuel → Ends (weight p) (copa_parse_assignment fuel p)
unfolding copa_parse_assignment
assignment-Ends fuel p h = elim (Bool-cases p.active) [
  | inr e ↦ (none, p, if_refused _ e, omega arith)
  | inl e ↦
      let (name, q, r, l) = slurp_to-Ends fuel (whitespace ∷ []) (comment ∷ newline ∷ []) p h in
      let (o, q2, r2, l2) = parse_value-Ends fuel name q (omega arith) in
      (o, q2, if_passed _ e ∙ rw r r2, omega arith)
]

pub rest-Ends :
    (fuel c : ℕ) (p : CopaParser) → weight p < fuel → Ends (weight p) (parse_rest fuel c p)
unfolding parse_rest
rest-Ends fuel c p h = elim (Bool-cases (copa_cin c (comment ∷ []))) [
  | inl e ↦ let (q, r, l) = skip_to-Ends fuel (newline ∷ []) p h in (none, q, rw (e, r) refl, l)
  | inr e ↦ elim (Bool-cases (copa_cin c (lbracket ∷ []))) [
    | inl f ↦ rw (e, f) (block-Ends fuel p h)
    | inr f ↦ rw (e, f) (assignment-Ends fuel p h)
  ]
]
