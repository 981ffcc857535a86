-- ===== src/Copa/Next.antt =====
-- `copa_next` of src/cfg-parse.c against the text that the parser is about to see.
use sighttpd.Prelude.{
  ℕ, suc, zero, ◌+◌, ◌≤◌, ◌<◌, Text, true, false, some, List, [], ◌∷◌, ◌++◌, ◌≡◌, ◌≢◌, refl, ◌∙◌,
  ap, sym, arith, inl, inr, ◌==◌, ltb, if◌then◌else◌, length, drop, get_or, All, Bool-cases,
  length-append, length-drop, ltb→lt, le→ltb, ltb→le, ==_iff, ==_ne,
}
use sighttpd.Copa.{
  CopaParser, eof, backslash, buffer_size, overwrite, refill_by, decode, ready, step, next_loop,
}
use sighttpd.Copa.Parse.{copa_next, keep}

-- The bytes that come from the next reads: each answer, with the bytes behind it that the buffer still
-- has.
abbrev pub seen : Text → List Text → Text
seen buffer [] = []
seen buffer ([] ∷ input) = []
seen buffer ((b ∷ bs) ∷ input) = overwrite (b ∷ bs) buffer ++ seen (overwrite (b ∷ bs) buffer) input

abbrev pub pushed_back : ℕ → Text → Text
pushed_back c t = if c == 0 then t else c ∷ t

-- All that the parser is to see: the character pushed back, the rest of the buffer, and what is read.
abbrev pub view : CopaParser → Text
view p = pushed_back p.pushback (drop p.offset p.read_buffer ++ seen p.read_buffer p.input)

-- An answer of read(2) before the end of the file: it is not empty and fits the buffer.
abbrev pub IsAnswer : Text → Type 0
IsAnswer a = (0 < length a) × (length a ≤ buffer_size)

-- The parser is not within an escape and is to see the text `t`.
pub record Sees (p : CopaParser) (t : Text) : Type 0 where
  pub active : p.active ≡ true
  pub full : length p.read_buffer ≡ buffer_size
  pub fits : All IsAnswer p.input
  pub no_escape : p.escape ≡ false
  pub no_octal : p.octal ≡ 0
  pub no_hex : p.hex ≡ 0
  pub sees : view p ≡ t

-- Bytes that `copa_next` passes on as they are.
abbrev pub IsPlain : ℕ → Type 0
IsPlain c = (c ≢ 0) × (c ≢ backslash) × (c ≢ eof)

drop-get_or : (n : ℕ) (t : Text) → n < length t → drop n t ≡ get_or t n 0 ∷ drop (suc n) t
drop-get_or n [] h = absurd (omega arith)
drop-get_or zero (x ∷ t) h = refl
drop-get_or (suc n) (x ∷ t) h = drop-get_or n t (omega arith)

pub drop_all : (n : ℕ) (t : Text) → length t ≤ n → drop n t ≡ []
drop_all zero [] h = refl
drop_all (suc n) [] h = refl
drop_all zero (x ∷ t) h = absurd (omega arith)
drop_all (suc n) (x ∷ t) h = drop_all n t (omega arith)

pub length-overwrite :
    (a buffer : Text)
    → length buffer ≡ buffer_size
    → length a ≤ buffer_size
    → length (overwrite a buffer) ≡ buffer_size
length-overwrite a buffer h k =
    omega (arith, length-append a (drop (length a) buffer), length-drop (length a) buffer)

add_one : (n : ℕ) → n + 1 ≡ suc n
add_one n = omega arith

decode-plain :
    (p : CopaParser) (c : ℕ)
    → p.octal ≡ 0
    → p.hex ≡ 0
    → p.escape ≡ false
    → IsPlain c
    → decode p c ≡ (c, p)
unfolding decode
decode-plain p c h k l (m, n, o) = simp (h, k, l, ==_ne c backslash n) refl

-- A buffer that is used up is filled again, and the parser sees the same.
module _ {p : CopaParser} (c : ℕ) (t : Text) (s : Sees p (c ∷ t)) (none_back : p.pushback ≡ 0) where
  sees_seen : buffer_size ≤ p.offset → seen p.read_buffer p.input ≡ c ∷ t
  sees_seen h =
      let gone = drop_all p.offset p.read_buffer (omega (arith, s.full)) in
      sym (rw (none_back, gone) refl) ∙ s.sees

  refill_by-Sees :
      (input : List Text)
      → p.input ≡ input
      → seen p.read_buffer input ≡ c ∷ t
      → All IsAnswer input
      → (q : CopaParser) × (refill_by input p ≡ (true, q))
        × Sees q (c ∷ t)
        × (q.pushback ≡ 0)
        × (q.offset ≡ 0)
  unfolding refill_by
  refill_by-Sees [] e h f = absurd (ground arith)
  refill_by-Sees ([] ∷ input) e h f = absurd (ground arith)
  refill_by-Sees ((b ∷ bs) ∷ input) e h ((some_bytes, few), f) = (
    record p { read_buffer = overwrite (b ∷ bs) p.read_buffer; input = input; offset = 0 },
    refl,
    record {
      active = s.active;
      full = length-overwrite (b ∷ bs) p.read_buffer s.full few;
      fits = f;
      no_escape = s.no_escape;
      no_octal = s.no_octal;
      no_hex = s.no_hex;
      sees = rw none_back h;
    },
    none_back,
    refl,
  )

  ready-Sees :
      (q : CopaParser) × (ready p ≡ (true, q))
      × Sees q (c ∷ t)
      × (q.pushback ≡ 0)
      × (q.offset < buffer_size)
  unfolding ready
  ready-Sees = elim (Bool-cases (ltb p.offset buffer_size)) [
    | inl e ↦ (p, rw e, s, none_back, ltb→lt p.offset buffer_size e)
    | inr e ↦
        let h = sees_seen (ltb→le p.offset buffer_size e) in
        let (q, r, s', b, o) = refill_by-Sees p.input refl h s.fits in
        (q, rw e r, s', b, omega arith)
  ]

  -- A plain byte in the buffer is taken from it.
  step-Sees :
      p.offset < buffer_size
      → IsPlain c
      → (q : CopaParser) × (step p ≡ (c, q)) × Sees q t × (q.pushback ≡ 0)
  unfolding step
  step-Sees o plain =
      let parts = drop-get_or p.offset p.read_buffer (omega (arith, s.full)) in
      let all : get_or p.read_buffer p.offset 0
            ∷ (drop (suc p.offset) p.read_buffer ++ seen p.read_buffer p.input)
          ≡ c ∷ t =
        sym (rw (none_back, parts) refl) ∙ s.sees in
      let q : CopaParser = record p { offset = p.offset + 1 } in
      let byte = ap (λ u. get_or u 0 0) all in
      (
        q,
        ap (decode q) byte ∙ decode-plain q c s.no_octal s.no_hex s.no_escape plain,
        record {
          active = s.active;
          full = s.full;
          fits = s.fits;
          no_escape = s.no_escape;
          no_octal = s.no_octal;
          no_hex = s.no_hex;
          sees = rw (none_back, add_one p.offset) (ap (λ u. drop 1 u) all);
        },
        none_back,
      )

module _ {p : CopaParser} (c : ℕ) (t : Text) (s : Sees p (c ∷ t)) (plain : IsPlain c)
    (fuel : ℕ) where
  pub copa_next-Sees :
      (q : CopaParser) × (copa_next (suc fuel) p ≡ some (c, q)) × Sees q t × (q.pushback ≡ 0)
  unfolding copa_next next_loop
  copa_next-Sees = elim (Bool-cases (p.pushback == 0)) [
    | inl e ↦
        let (q, r, s', b, o) = ready-Sees c t s ((==_iff p.pushback 0).0 e) in
        let (q', r', s'', b') = step-Sees c t s' b o plain in
        (q', rw (e, r, r', ==_ne c 0 plain.0) refl, s'', b')
    | inr e ↦
        let all = rw e at s.sees in
        let byte = ap (λ u. get_or u 0 0) all in
        (
          keep 0 p,
          rw e (ap (λ b. some (b, keep 0 p)) byte),
          record {
            active = s.active;
            full = s.full;
            fits = s.fits;
            no_escape = s.no_escape;
            no_octal = s.no_octal;
            no_hex = s.no_hex;
            sees = ap (λ u. drop 1 u) all;
          },
          refl,
        )
  ]

cons≢nil : {c : ℕ} {t : Text} → c ∷ t ≢ []
cons≢nil e = absurd (ground arith)

++-nonempty : (t u : Text) → 0 < length t → t ++ u ≢ []
++-nonempty [] u h e = omega arith
++-nonempty (c ∷ t) u h e = cons≢nil e

-- The parser has stopped at the end of the file.
abbrev pub AtEnd : CopaParser → Type 0
AtEnd p = (p.active ≡ false) × (p.pushback ≡ 0) × (buffer_size ≤ p.offset) × (p.input ≡ [])

pub refill_by_end :
    (p : CopaParser) (input : List Text)
    → All IsAnswer input
    → seen p.read_buffer input ≡ []
    → length p.read_buffer ≡ buffer_size
    → input ≡ []
refill_by_end p [] f h full = refl
refill_by_end p ([] ∷ input) f h full = absurd (ground arith)
refill_by_end p ((b ∷ bs) ∷ input) f h full = absurd (ground arith)

-- Behind the end of the file, the parser stays there.
pub copa_next-AtEnd :
    (p : CopaParser) (fuel : ℕ)
    → p.pushback ≡ 0
    → buffer_size ≤ p.offset
    → p.input ≡ []
    → (q : CopaParser) × (copa_next (suc fuel) p ≡ some (eof, q)) × AtEnd q
unfolding copa_next next_loop ready refill_by
copa_next-AtEnd p fuel back o i = (
  record p { active = false },
  simp (back, le→ltb p.offset buffer_size o, i) refl,
  (refl, back, o, i),
)

-- At the end of what it is to see, the parser stops.
pub copa_next_end :
    (p : CopaParser) (fuel : ℕ)
    → Sees p []
    → (q : CopaParser) × (copa_next (suc fuel) p ≡ some (eof, q)) × AtEnd q
copa_next_end p fuel s = elim (Bool-cases (p.pushback == 0)) [
  | inl e ↦
      let all = rw e at s.sees in
      elim (Bool-cases (ltb p.offset buffer_size)) [
        | inl o ↦
            let left = length-drop p.offset p.read_buffer in
            let some_left : 0 < length (drop p.offset p.read_buffer) =
              omega (arith, s.full, left, ltb→lt p.offset buffer_size o) in
            absurd (++-nonempty (drop p.offset p.read_buffer) _ some_left all)
        | inr o ↦
            let used = ltb→le p.offset buffer_size o in
            let gone = drop_all p.offset p.read_buffer (omega (arith, s.full, used)) in
            let i = refill_by_end p p.input s.fits (rw gone at all) s.full in
            copa_next-AtEnd p fuel ((==_iff p.pushback 0).0 e) used i
      ]
  | inr e ↦ absurd (cons≢nil (rw e at s.sees))
]
