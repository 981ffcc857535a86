-- ===== src/Copa/Total.antt =====
-- `copa_read_fd` of src/cfg-parse.c ends on every input: each line takes something off what is left.
use sighttpd.Prelude.{
  ℕ, suc, zero, ◌≤◌, ◌<◌, Text, true, false, not, Option, none, some, List, [], ◌∷◌, ◌≡◌, ◌≢◌, ◌⊎◌,
  inl, inr, refl, ◌∙◌, arith, length, ◌*◌, ◌==◌, if◌then◌else◌, Bool-cases, ==_ne,
}
use sighttpd.Copa.{CopaParser, newline, whitespace, comment, lbracket, copa_cin, refill_by, eof}
use sighttpd.Copa.Parse.{
  Item, keep, copa_peek, skip_loop, copa_skip_over, copa_skip_to, copa_parse_assignment,
  copa_parse_block, parse_rest, copa_parse_line, found, parse_lines, initial, copa_read_fd,
}
use sighttpd.Copa.Reads.{if_true, if_false, if_passed, if_refused}
use sighttpd.Copa.Ends.{weight, TakenOr, took, ended, copa_next-Takes, taken_less, ne_eof, keep_le}
use sighttpd.Copa.RoundTrip.{parse_lines_stopped, parse_lines_step}
use sighttpd.Copa.Readers.{peek-Ends, rest-Ends}
use sighttpd.Copa.Progress.{rest_less}

-- Where `copa_skip_over` leaves an active parser: with less, at the end, or at a character that is no
-- whitespace.
data Start (p q : CopaParser) : Type 0 where
  fewer : weight q < weight p → Start p q
  stopped : weight q ≤ weight p → q.active ≡ false → Start p q
  at_start :
      weight q ≤ weight p
      → q.active ≡ true
      → q.pushback ≢ 0
      → copa_cin q.pushback (whitespace ∷ []) ≡ false
      → Start p q

Start-less : {p u q : CopaParser} → weight u < weight p → Start u q → Start p q
Start-less h (fewer l) = fewer (omega (arith, h, l))
Start-less h (stopped l a) = stopped (omega (arith, h, l)) a
Start-less h (at_start l a b f) = fewer (omega (arith, h, l))

end-Start : {p q : CopaParser} {c : ℕ} → TakenOr p c q → Start p q
end-Start (took l a) = fewer l
end-Start (ended e l a) = stopped l a

taken_active : {p q : CopaParser} {c : ℕ} → c ≢ eof → TakenOr p c q → q.active ≡ p.active
taken_active h (took l a) = a
taken_active h (ended e l a) = absurd (h e)

skip_loop-Start :
    (fuel : ℕ) (p : CopaParser)
    → p.active ≡ true
    → weight p < fuel
    → (q : CopaParser) × (skip_loop fuel false (whitespace ∷ []) p ≡ some q) × Start p q
unfolding skip_loop
skip_loop-Start zero p active h = absurd (omega arith)
skip_loop-Start (suc fuel) p active h =
    let (c, q, r, ne, t) = copa_next-Takes (suc fuel) p h in
    elim (Bool-cases (c == eof)) [
      | inl e ↦ (q, rw (r, e) refl, end-Start t)
      | inr e ↦
          let less = taken_less (ne_eof c e) t in
          let same = taken_active (ne_eof c e) t ∙ active in
          let kept = keep_le c q in
          elim (Bool-cases (copa_cin c (whitespace ∷ []))) [
            | inl f ↦
                let (q', r', s) = skip_loop-Start fuel q same (omega arith) in
                (q', rw (r, e, f) r', Start-less less s)
            | inr f ↦ (keep c q, rw (r, e, f) refl, at_start (omega arith) same ne f)
          ]
    ]

still_inactive : {p q : CopaParser} {c : ℕ} → p.active ≡ false → TakenOr p c q → q.active ≡ false
still_inactive h (took l a) = a ∙ h
still_inactive h (ended e l a) = a

-- Nothing is parsed behind the end.
peek_inactive :
    (fuel : ℕ) (p : CopaParser)
    → p.active ≡ false
    → weight p < fuel
    → (c : ℕ) × (q : CopaParser) × (copa_peek fuel p ≡ some (c, q)) × (q.active ≡ false)
unfolding copa_peek
peek_inactive fuel p a h = elim (Bool-cases (p.pushback == 0)) [
  | inr e ↦ (p.pushback, p, if_refused _ e, a)
  | inl e ↦
      let (c, q, r, ne, t) = copa_next-Takes fuel p h in
      elim (Bool-cases (c == eof)) [
        | inl f ↦ (c, q, if_passed _ e ∙ rw (r, f) refl, still_inactive a t)
        | inr f ↦ (c, keep c q, if_passed _ e ∙ rw (r, f) refl, still_inactive a t)
      ]
]

skip_to_inactive :
    (fuel : ℕ) (p : CopaParser) → p.active ≡ false → copa_skip_to fuel (newline ∷ []) p ≡ some p
unfolding copa_skip_to
skip_to_inactive fuel p a = if_false _ a

peek_back : (fuel : ℕ) (p : CopaParser) → p.pushback ≢ 0 → copa_peek fuel p ≡ some (p.pushback, p)
unfolding copa_peek
peek_back fuel p h = if_refused _ (==_ne p.pushback 0 h)

rest_inactive :
    (fuel c : ℕ) (p : CopaParser) → p.active ≡ false → parse_rest fuel c p ≡ some (none, p)
unfolding parse_rest copa_parse_block copa_parse_assignment
rest_inactive fuel c p a = elim (Bool-cases (copa_cin c (comment ∷ []))) [
  | inl e ↦ rw (e, skip_to_inactive fuel p a) refl
  | inr e ↦ elim (Bool-cases (copa_cin c (lbracket ∷ []))) [
    | inl f ↦ rw (e, f) (if_refused _ a)
    | inr f ↦ rw (e, f) (if_refused _ a)
  ]
]

line-Ends :
    (fuel : ℕ) (p : CopaParser)
    → p.active ≡ true
    → weight p < suc fuel
    → (o : Option Item) × (q : CopaParser) × (copa_parse_line (suc fuel) p ≡ some (o, q))
      × ((weight q < weight p) ⊎ (q.active ≡ false))
unfolding copa_parse_line copa_skip_over
line-Ends fuel p active h =
    let (q, r, s) = skip_loop-Start (suc fuel) p active h in
    let over : copa_skip_over (suc fuel) (whitespace ∷ []) p ≡ some q = if_true _ active ∙ r in
    elim s [
      | fewer l ↦
          let (c, q2, r2, l2) = peek-Ends (suc fuel) q (omega arith) in
          let (o, q3, r3, l3) = rest-Ends (suc fuel) c q2 (omega arith) in
          (o, q3, rw (over, r2) r3, inl (omega arith))
      | stopped l a ↦
          let (c, q2, r2, a2) = peek_inactive (suc fuel) q a (omega arith) in
          (none, q2, rw (over, r2) (rest_inactive (suc fuel) c q2 a2), inr a2)
      | at_start l a b f ↦
          let (o, q2, r2, l2) = rest_less fuel q (omega arith) a b f in
          (o, q2, rw (over, peek_back (suc fuel) q b) r2, inl (omega arith))
    ]

parse_lines-Ends :
    (fuel : ℕ) (p : CopaParser)
    → weight p < fuel
    → (items : List Item) × (parse_lines fuel p ≡ some items)
parse_lines-Ends zero p h = absurd (omega arith)
parse_lines-Ends (suc fuel) p h = elim (Bool-cases p.active) [
  | inr e ↦ ([], parse_lines_stopped (suc fuel) p e)
  | inl e ↦
      let (o, q, r, s) = line-Ends fuel p e h in
      elim s [
        | inl l ↦
            let (items, r') = parse_lines-Ends fuel q (omega arith) in
            (found o items, parse_lines_step fuel p o q items e r r')
        | inr a ↦ (found o [], parse_lines_step fuel p o q [] e r (parse_lines_stopped fuel q a))
      ]
]

read_by-Ends :
    (input : List Text) (fuel : ℕ)
    → 16 * length input < fuel
    → (items : List Item) × ((if not (refill_by input (initial input)).0
          then some []
          else parse_lines fuel (refill_by input (initial input)).1)
        ≡ some items)
unfolding refill_by
read_by-Ends [] fuel h = ([], refl)
read_by-Ends ([] ∷ input) fuel h = ([], refl)
read_by-Ends ((b ∷ bs) ∷ input) fuel h = parse_lines-Ends fuel _ (omega arith)

-- Whatever the answers of read(2) are, with more than sixteen units of fuel for each of them `copa_read_fd`
-- ends, and its outcome is a list of what it has found.
pub copa_read_fd-Ends :
    (input : List Text) (fuel : ℕ)
    → 16 * length input < fuel
    → (items : List Item) × (copa_read_fd fuel input ≡ some items)
unfolding copa_read_fd
copa_read_fd-Ends input fuel h = read_by-Ends input fuel h
