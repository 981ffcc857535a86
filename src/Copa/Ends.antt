-- ===== src/Copa/Ends.antt =====
-- The loops of src/cfg-parse.c end on every input: what is left to read gets less.
use sighttpd.Prelude.{
  ℕ, suc, zero, ◌+◌, ◌-◌, ◌*◌, ◌≤◌, ◌<◌, Text, Bool, true, false, Option, none, some, List, [], ◌∷◌,
  ◌++◌, ◌≡◌, ◌≢◌, ◌⊎◌, inl, inr, refl, ap, ◌∙◌, arith, length, ◌==◌, ltb, if◌then◌else◌, Bool-cases,
  ltb→le, ltb→lt, ==_ne, get_or,
}
use sighttpd.Copa.{
  CopaParser, CharClass, copa_cin, eof, backslash, buffer_size, refill_by, copa_octal, copa_hex,
  end_number, octal_digit, hex_digit, escape_octal, unescape, decode, ready, step, next_loop,
}
use sighttpd.Copa.Parse.{copa_next, keep, stop, skip_loop, slurp_loop}
use sighttpd.Copa.Reads.{if_true, if_false}

-- A character that is pushed back, and two for each byte that is in the buffer or to come.
abbrev pub one_back : ℕ → ℕ
one_back c = if c == 0 then 0 else 1

abbrev pub weight : CopaParser → ℕ
weight p = 2 * ((buffer_size - p.offset) + buffer_size * length p.input) + one_back p.pushback

one_back_le : (c : ℕ) → one_back c ≤ 1
one_back_le c = elim (Bool-cases (c == 0)) [
  | inl e ↦ rw e (omega arith)
  | inr e ↦ rw e (omega arith)
]

-- The place in the input stays.
record Stays (p : CopaParser) (r : ℕ × CopaParser) : Type 0 where
  offset_stays : r.1.offset ≡ p.offset
  input_stays : r.1.input ≡ p.input
  active_stays : r.1.active ≡ p.active

from :
    {p q : CopaParser} {r : ℕ × CopaParser}
    → Stays q r
    → (q.offset ≡ p.offset)
    → (q.input ≡ p.input)
    → (q.active ≡ p.active)
    → Stays p r
from t o i a = record {
  offset_stays = t.offset_stays ∙ o;
  input_stays = t.input_stays ∙ i;
  active_stays = t.active_stays ∙ a;
}

if_elim : {A : Type 0} (P : A → Type 0) (b : Bool) {x y : A} → P x → P y → P (if b then x else y)
if_elim P true h k = h
if_elim P false h k = k

end_number-Stays : (p : CopaParser) (c : ℕ) → Stays p (end_number p c)
unfolding end_number
end_number-Stays p c = elim (Bool-cases (c == backslash)) [
  | inl e ↦ record { offset_stays = rw e refl; input_stays = rw e refl; active_stays = rw e refl }
  | inr e ↦ record { offset_stays = rw e refl; input_stays = rw e refl; active_stays = rw e refl }
]

octal_digit-Stays : (p : CopaParser) (c : ℕ) (o : Option ℕ) → Stays p (octal_digit p c o)
unfolding octal_digit
octal_digit-Stays p c none = from (end_number-Stays (record p { octal = 0 }) c) refl refl refl
octal_digit-Stays p c (some num) = record {
  offset_stays = refl;
  input_stays = refl;
  active_stays = refl;
}

hex_digit-Stays : (p : CopaParser) (c : ℕ) (o : Option ℕ) → Stays p (hex_digit p c o)
unfolding hex_digit
hex_digit-Stays p c none = from (end_number-Stays (record p { hex = 0 }) c) refl refl refl
hex_digit-Stays p c (some num) = record {
  offset_stays = refl;
  input_stays = refl;
  active_stays = refl;
}

escape_octal-Stays : (p : CopaParser) (c : ℕ) (o : Option ℕ) → Stays p (escape_octal p c o)
unfolding escape_octal
escape_octal-Stays p c none = record {
  offset_stays = refl;
  input_stays = refl;
  active_stays = refl;
}
escape_octal-Stays p c (some num) = record {
  offset_stays = refl;
  input_stays = refl;
  active_stays = refl;
}

unescape-Stays : (p : CopaParser) (c : ℕ) → Stays p (unescape p c)
unfolding unescape
unescape-Stays p c =
    let here : (d : ℕ) → Stays p (d, p) =
      λ d. record { offset_stays = refl; input_stays = refl; active_stays = refl } in
    let hex_next : Stays p (0, record p { hex = 2; numchar = 0 }) = record {
      offset_stays = refl;
      input_stays = refl;
      active_stays = refl;
    } in
    if_elim (Stays p) _ (here 7) (
      if_elim (Stays p) _ (here 8) (
        if_elim (Stays p) _ (here 12) (
          if_elim (Stays p) _ (here 10) (
            if_elim (Stays p) _ (here 13) (
              if_elim (Stays p) _ (here 9) (
                if_elim (Stays p) _ (here 11) (
                  if_elim (Stays p) _ (here c) (
                    if_elim (Stays p) _ (here 0)
                      (if_elim (Stays p) _ hex_next (escape_octal-Stays p c (copa_octal c)))))))))))

decode-Stays : (p : CopaParser) (c : ℕ) → Stays p (decode p c)
unfolding decode
decode-Stays p c =
    let escaped : Stays p (0, record p { escape = true }) = record {
      offset_stays = refl;
      input_stays = refl;
      active_stays = refl;
    } in
    let plain : Stays p (c, p) = record {
      offset_stays = refl;
      input_stays = refl;
      active_stays = refl;
    } in
    let octal = octal_digit-Stays (record p { octal = p.octal - 1 }) c (copa_octal c) in
    let hex = hex_digit-Stays (record p { hex = p.hex - 1 }) c (copa_hex c) in
    let other = unescape-Stays (record p { escape = false }) c in
    if_elim (Stays p) _ (from octal refl refl refl) (
      if_elim (Stays p) _ (from hex refl refl refl)
        (if_elim (Stays p) _ (from other refl refl refl) (if_elim (Stays p) _ escaped plain)))

step_less : (p : CopaParser) → p.offset < buffer_size → weight (step p).1 < weight p
unfolding step
step_less p h =
    let t = decode-Stays (record p { offset = p.offset + 1 }) (get_or p.read_buffer p.offset 0) in
    omega (arith, t.offset_stays, ap length t.input_stays, one_back_le (step p).1.pushback)

step_active : (p : CopaParser) → (step p).1.active ≡ p.active
unfolding step
step_active p =
    (decode-Stays (record p { offset = p.offset + 1 })
      (get_or p.read_buffer p.offset 0)).active_stays

-- The buffer is filled, or the parser stops.
abbrev Filled : CopaParser → Bool × CopaParser → Type 0
Filled p r =
    (r.1.active ≡ p.active) × (r.0 ≡ true) × (r.1.offset < buffer_size) × (weight r.1 ≤ weight p)

abbrev Stopped : CopaParser → Bool × CopaParser → Type 0
Stopped p r = (r.1.active ≡ false) × (r.0 ≡ false) × (weight r.1 ≤ weight p)

refill_by-weight :
    (input : List Text) (p : CopaParser)
    → p.input ≡ input
    → buffer_size ≤ p.offset
    → Filled p (refill_by input p) ⊎ Stopped p (refill_by input p)
unfolding refill_by
refill_by-weight [] p e h = inr (refl, refl, omega arith)
refill_by-weight ([] ∷ input) p e h = inr (refl, refl, omega (arith, ap length e))
refill_by-weight ((b ∷ bs) ∷ input) p e h =
    inl (refl, refl, omega arith, omega (arith, ap length e))

ready-weight : (p : CopaParser) → Filled p (ready p) ⊎ Stopped p (ready p)
unfolding ready
ready-weight p = elim (Bool-cases (ltb p.offset buffer_size)) [
  | inl e ↦ rw e (inl (refl, refl, ltb→lt p.offset buffer_size e, omega arith))
  | inr e ↦ rw e (refill_by-weight p.input p refl (ltb→le p.offset buffer_size e))
]

-- `copa_next` takes something off what is left, or it meets the end of the input and stops.
pub data TakenOr (p : CopaParser) (c : ℕ) (q : CopaParser) : Type 0 where
  took : weight q < weight p → q.active ≡ p.active → TakenOr p c q
  ended : c ≡ eof → weight q ≤ weight p → q.active ≡ false → TakenOr p c q

abbrev pub Takes : CopaParser → Option (ℕ × CopaParser) → Type 0
Takes p run = (c : ℕ) × (q : CopaParser) × (run ≡ some (c, q)) × (c ≢ 0) × TakenOr p c q

ne_of : (c : ℕ) → (c == 0) ≡ false → c ≢ 0
ne_of c h e = ground (arith, h, e)

later :
    (q : CopaParser) {p u r : CopaParser} {c : ℕ}
    → weight u < weight q
    → weight q ≤ weight p
    → u.active ≡ p.active
    → TakenOr u c r
    → TakenOr p c r
later q h k a (took l b) = took (omega (arith, h, k, l)) (b ∙ a)
later q h k a (ended e l b) = ended e (omega (arith, h, k, l)) b

next_loop-Takes : (fuel : ℕ) (p : CopaParser) → weight p < fuel → Takes p (next_loop fuel p)
unfolding next_loop
next_loop-Takes zero p h = absurd (omega arith)
next_loop-Takes (suc fuel) p h = elim (ready-weight p) [
  | inr (stopped, spent, less) ↦
      (eof, (ready p).1, rw spent refl, (λ e. absurd (omega (arith, e))), ended refl less stopped)
  | inl (same, full, room, less) ↦
      let q = (ready p).1 in
      let taken = step_less q room in
      let active : (step q).1.active ≡ p.active = step_active q ∙ same in
      elim (Bool-cases ((step q).0 == 0)) [
        | inr e ↦ (
          (step q).0,
          (step q).1,
          rw (full, e) refl,
          ne_of (step q).0 e,
          took (omega arith) active,
        )
        | inl e ↦
            let (c, r, f, ne, g) = next_loop-Takes fuel (step q).1 (omega arith) in
            (c, r, rw (full, e) f, ne, later q taken less active g)
      ]
]

pub keep_less : (p : CopaParser) → p.pushback ≢ 0 → weight (keep 0 p) < weight p
keep_less p h =
    let one : one_back p.pushback ≡ 1 = rw (==_ne p.pushback 0 h) refl in omega (arith, one)

pub keep_le : (c : ℕ) (p : CopaParser) → weight (keep c p) ≤ weight p + 1
keep_le c p = omega (arith, one_back_le c)

pub copa_next-Takes : (fuel : ℕ) (p : CopaParser) → weight p < fuel → Takes p (copa_next fuel p)
unfolding copa_next
copa_next-Takes fuel p h = elim (Bool-cases (p.pushback == 0)) [
  | inl e ↦ rw e (next_loop-Takes fuel p h)
  | inr e ↦
      let ne = ne_of p.pushback e in
      (p.pushback, keep 0 p, rw e refl, ne, took (keep_less p ne) refl)
]

-- A run that ends with no more left than `n`.
abbrev pub Ends : {R : Type 0} → ℕ → Option (R × CopaParser) → Type 0
Ends {R = R} n run = (r : R) × (q : CopaParser) × (run ≡ some (r, q)) × (weight q ≤ n)

pub taken_le : {p : CopaParser} {c : ℕ} {q : CopaParser} → TakenOr p c q → weight q ≤ weight p
taken_le (took l a) = omega (arith, l)
taken_le (ended e l a) = l

pub taken_less :
    {p : CopaParser} {c : ℕ} {q : CopaParser} → c ≢ eof → TakenOr p c q → weight q < weight p
taken_less h (took l a) = l
taken_less h (ended e l a) = absurd (h e)

pub ne_eof : (c : ℕ) → (c == eof) ≡ false → c ≢ eof
ne_eof c h e = ground (arith, h, e)

pub skip_loop-Ends :
    (fuel : ℕ) (wanted : Bool) (classes : List CharClass) (p : CopaParser)
    → weight p < fuel
    → (q : CopaParser) × (skip_loop fuel wanted classes p ≡ some q) × (weight q ≤ weight p)
unfolding skip_loop
skip_loop-Ends zero wanted classes p h = absurd (omega arith)
skip_loop-Ends (suc fuel) wanted classes p h =
    let (c, q, r, ne, t) = copa_next-Takes (suc fuel) p h in
    elim (Bool-cases (c == eof)) [
      | inl e ↦ (q, rw (r, e) refl, taken_le t)
      | inr e ↦
          let less = taken_less (ne_eof c e) t in
          let kept = keep_le c q in
          let (q', r', l) = skip_loop-Ends fuel wanted classes q (omega arith) in
          elim (Bool-cases (copa_cin c classes)) [
            | inl f ↦ elim (Bool-cases wanted) [
              | inl g ↦ (keep c q, rw (r, e, f) (if_true _ g), omega arith)
              | inr g ↦ (q', rw (r, e, f) (if_false _ g ∙ r'), omega arith)
            ]
            | inr f ↦ elim (Bool-cases wanted) [
              | inl g ↦ (q', rw (r, e, f) (if_true _ g ∙ r'), omega arith)
              | inr g ↦ (keep c q, rw (r, e, f) (if_false _ g), omega arith)
            ]
          ]
    ]

pub slurp_loop-Ends :
    (fuel : ℕ) (good_end bad_end : List CharClass) (ret : Text) (p : CopaParser)
    → weight p < fuel
    → Ends (weight p) (slurp_loop fuel good_end bad_end ret p)
unfolding slurp_loop
slurp_loop-Ends zero good_end bad_end ret p h = absurd (omega arith)
slurp_loop-Ends (suc fuel) good_end bad_end ret p h =
    let (c, q, r, ne, t) = copa_next-Takes (suc fuel) p h in
    elim (Bool-cases (c == eof)) [
      | inl e ↦ (some ret, q, rw (r, e) refl, taken_le t)
      | inr e ↦
          let less = taken_less (ne_eof c e) t in
          let kept = keep_le c q in
          let (o, q', r', l) =
            slurp_loop-Ends fuel good_end bad_end (ret ++ c ∷ []) q (omega arith) in
          elim (Bool-cases (copa_cin c good_end)) [
            | inl f ↦ (some ret, keep c q, rw (r, e, f) refl, omega arith)
            | inr f ↦ elim (Bool-cases (copa_cin c bad_end)) [
              | inl g ↦ (none, stop (keep c q), rw (r, e, f, g) refl, omega arith)
              | inr g ↦ (o, q', rw (r, e, f, g) r', omega arith)
            ]
          ]
    ]
