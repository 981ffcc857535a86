-- ===== src/Copa/Progress.antt =====
-- Parts of src/cfg-parse.c that take at least one character.
use sighttpd.Prelude.{
  ℕ, suc, ◌<◌, Text, Bool, true, false, Option, none, some, List, [], ◌∷◌, ◌≡◌, ◌≢◌, inl, inr, refl,
  ◌∙◌, arith, ◌==◌, Bool-cases, ==_ne,
}
use sighttpd.Copa.{
  CopaParser, CharClass, newline, whitespace, comment, lbracket, copa_cin, in_class, eof,
}
use sighttpd.Copa.Parse.{
  Item, copa_next, keep, stop, skip_loop, copa_skip_to, slurp_loop, copa_slurp_to,
  copa_assert_and_pass, copa_parse_assignment, copa_parse_block, parse_rest,
}
use sighttpd.Copa.Reads.{if_true, if_false, if_passed}
use sighttpd.Copa.Ends.{weight, skip_loop-Ends, slurp_loop-Ends, keep_less}
use sighttpd.Copa.Readers.{parse_value-Ends, open_block-Ends}

-- Line feeds are whitespace.
not_newline : (c : ℕ) → copa_cin c (whitespace ∷ []) ≡ false → copa_cin c (newline ∷ []) ≡ false
unfolding in_class
not_newline c h = ground (arith, h)

neither :
    (c : ℕ)
    → copa_cin c (comment ∷ []) ≡ false
    → copa_cin c (newline ∷ []) ≡ false
    → copa_cin c (comment ∷ newline ∷ []) ≡ false
unfolding in_class
neither c h k = ground (arith, h, k)

-- With an active parser, what starts at a character that is pushed back takes it.
module _ (fuel : ℕ) (p : CopaParser) (h : weight p < fuel) (active : p.active ≡ true)
    (back : p.pushback ≢ 0) where
  next_back : copa_next fuel p ≡ some (p.pushback, keep 0 p)
  unfolding copa_next
  next_back = if_false _ (==_ne p.pushback 0 back)

  pass_less :
      (classes : List CharClass)
      → (b : Bool) × (q : CopaParser) × (copa_assert_and_pass fuel classes p ≡ some (b, q))
        × (weight q < weight p)
  unfolding copa_assert_and_pass
  pass_less classes = elim (Bool-cases (copa_cin p.pushback classes)) [
    | inl e ↦ (true, keep 0 p, if_passed _ active ∙ rw (next_back, e) refl, keep_less p back)
    | inr e ↦
        (false, stop (keep 0 p), if_passed _ active ∙ rw (next_back, e) refl, keep_less p back)
  ]

  block_less :
      (o : Option Item) × (q : CopaParser) × (copa_parse_block fuel p ≡ some (o, q))
      × (weight q < weight p)
  unfolding copa_parse_block
  block_less =
      let (b, q, r, l) = pass_less (lbracket ∷ []) in
      let (o, q2, r2, l2) = open_block-Ends fuel b q (omega arith) in
      (o, q2, if_passed _ active ∙ rw r r2, omega arith)

-- The same of the two loops, which start with one round more.
module _ (fuel : ℕ) (p : CopaParser) (h : weight p < suc fuel) (active : p.active ≡ true)
    (back : p.pushback ≢ 0) where
  skip_to_less :
      (classes : List CharClass)
      → copa_cin p.pushback classes ≡ false
      → (q : CopaParser) × (copa_skip_to (suc fuel) classes p ≡ some q) × (weight q < weight p)
  unfolding copa_skip_to skip_loop
  skip_to_less classes f =
      let next = next_back (suc fuel) p h active back in
      let less = keep_less p back in
      elim (Bool-cases (p.pushback == eof)) [
        | inl e ↦ (keep 0 p, if_true _ active ∙ rw (next, e) refl, less)
        | inr e ↦
            let (q, r, l) = skip_loop-Ends fuel true classes (keep 0 p) (omega arith) in
            (q, if_true _ active ∙ rw (next, e, f) r, omega arith)
      ]

  slurp_to_less :
      (good_end bad_end : List CharClass)
      → copa_cin p.pushback good_end ≡ false
      → copa_cin p.pushback bad_end ≡ false
      → (o : Option Text) × (q : CopaParser) × (copa_slurp_to (suc fuel) good_end bad_end p
          ≡ some (o, q))
        × (weight q < weight p)
  unfolding copa_slurp_to slurp_loop
  slurp_to_less good_end bad_end f g =
      let next = next_back (suc fuel) p h active back in
      let less = keep_less p back in
      elim (Bool-cases (p.pushback == eof)) [
        | inl e ↦ (some [], keep 0 p, if_true _ active ∙ rw (next, e) refl, less)
        | inr e ↦
            let (o, q, r, l) =
              slurp_loop-Ends fuel good_end bad_end (p.pushback ∷ []) (keep 0 p) (omega arith) in
            (o, q, if_true _ active ∙ rw (next, e, f, g) r, omega arith)
      ]

  assignment_less :
      copa_cin p.pushback (whitespace ∷ []) ≡ false
      → copa_cin p.pushback (comment ∷ newline ∷ []) ≡ false
      → (o : Option Item) × (q : CopaParser) × (copa_parse_assignment (suc fuel) p ≡ some (o, q))
        × (weight q < weight p)
  unfolding copa_parse_assignment
  assignment_less f g =
      let (name, q, r, l) = slurp_to_less (whitespace ∷ []) (comment ∷ newline ∷ []) f g in
      let (o, q2, r2, l2) = parse_value-Ends (suc fuel) name q (omega arith) in
      (o, q2, if_passed _ active ∙ rw r r2, omega arith)

  pub rest_less :
      copa_cin p.pushback (whitespace ∷ []) ≡ false
      → (o : Option Item) × (q : CopaParser) × (parse_rest (suc fuel) p.pushback p ≡ some (o, q))
        × (weight q < weight p)
  unfolding parse_rest
  rest_less f = elim (Bool-cases (copa_cin p.pushback (comment ∷ []))) [
    | inl e ↦
        let (q, r, l) = skip_to_less (newline ∷ []) (not_newline p.pushback f) in
        (none, q, rw (e, r) refl, l)
    | inr e ↦ elim (Bool-cases (copa_cin p.pushback (lbracket ∷ []))) [
      | inl g ↦ let (o, q, r, l) = block_less (suc fuel) p h active back in (o, q, rw (e, g) r, l)
      | inr g ↦
          let (o, q, r, l) = assignment_less f (neither p.pushback e (not_newline p.pushback f)) in
          (o, q, rw (e, g) r, l)
    ]
  ]
