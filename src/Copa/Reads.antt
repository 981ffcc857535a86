-- ===== src/Copa/Reads.antt =====
-- The readers of src/cfg-parse.c, from `copa_peek` to `copa_slurp_quoted`, against the text that the
-- parser is about to see.
use sighttpd.Prelude.{
  ℕ, suc, zero, ◌≤◌, ◌<◌, Text, Bool, true, false, not, Option, some, List, [], ◌∷◌, ◌++◌, ◌≡◌, ◌≢◌,
  refl, ◌∙◌, ap, sym, arith, ◌==◌, if◌then◌else◌, length, All, Bool-cases, ==_ne, get_or,
  append-nil, append_assoc, inl, inr,
}
use sighttpd.Copa.{CopaParser, eof, CharClass, dquote, copa_cin, in_class}
use sighttpd.Copa.Parse.{
  keep, copa_peek, skip_loop, copa_skip_over, copa_skip_to, slurp_loop, copa_slurp_to,
  copa_assert_and_pass, end_quoted, copa_slurp_quoted,
}
use sighttpd.Copa.Next.{Sees, IsPlain, copa_next-Sees}

-- A run that answers `r` and leaves a parser that is to see `t`.
abbrev pub Gives : {R : Type 0} → Option (R × CopaParser) → R → Text → Type 0
Gives run r t = (q : CopaParser) × (run ≡ some (r, q)) × Sees q t

pub if_true : {A : Type 0} {b : Bool} {x : A} (y : A) → b ≡ true → (if b then x else y) ≡ x
if_true y e = rw e refl

pub if_passed : {A : Type 0} {b : Bool} {y : A} (x : A) → b ≡ true → (if not b then x else y) ≡ y
if_passed x e = rw e refl

pub if_false : {A : Type 0} {b : Bool} {y : A} (x : A) → b ≡ false → (if b then x else y) ≡ y
if_false x e = rw e refl

pub if_refused : {A : Type 0} {b : Bool} {x : A} (y : A) → b ≡ false → (if not b then x else y) ≡ x
if_refused y e = rw e refl

keep-Sees :
    {p : CopaParser} (c : ℕ) (t : Text)
    → c ≢ 0
    → p.pushback ≡ 0
    → Sees p t
    → Sees (keep c p) (c ∷ t)
keep-Sees c t h back s = record {
  active = s.active;
  full = s.full;
  fits = s.fits;
  no_escape = s.no_escape;
  no_octal = s.no_octal;
  no_hex = s.no_hex;
  sees = rw (==_ne c 0 h) (ap (λ u. c ∷ u) (rw back at s.sees));
}

pub copa_peek-Sees :
    {p : CopaParser} (c : ℕ) (t : Text) (fuel : ℕ)
    → IsPlain c
    → Sees p (c ∷ t)
    → Gives (copa_peek (suc fuel) p) c (c ∷ t)
unfolding copa_peek
copa_peek-Sees {p = p} c t fuel plain s = elim (Bool-cases (p.pushback == 0)) [
  | inl e ↦
      let (q, r, s', back) = copa_next-Sees c t s plain fuel in
      (keep c q, rw (e, r, ==_ne c eof plain.2) refl, keep-Sees c t plain.0 back s')
  | inr e ↦ (p, rw e (ap (λ u. some (u, p)) (ap (λ u. get_or u 0 0) (rw e at s.sees))), s)
]

stop_at :
    {A : Type 0} (b : Bool) (x y : A) → (if b then (if b then x else y) else if b then y else x) ≡ x
stop_at true x y = refl
stop_at false x y = refl

go_past :
    {A : Type 0} (b : Bool) (x y : A)
    → (if not b then (if b then x else y) else if b then y else x) ≡ y
go_past true x y = refl
go_past false x y = refl

-- The loops go past characters on one side of a test of their class, and stop at one of the other.
module _ (wanted : Bool) (classes : List CharClass) (c : ℕ) (t : Text) (plain : IsPlain c)
    (ends : copa_cin c classes ≡ wanted) where
  pub skip_loop-Sees :
      (w : Text) (p : CopaParser) (fuel : ℕ)
      → length w < fuel
      → All (λ d. IsPlain d × (copa_cin d classes ≡ not wanted)) w
      → Sees p (w ++ c ∷ t)
      → (q : CopaParser) × (skip_loop fuel wanted classes p ≡ some q) × Sees q (c ∷ t)
  unfolding skip_loop
  skip_loop-Sees w p zero h f s = absurd (omega arith)
  skip_loop-Sees [] p (suc fuel) h f s =
      let (q, r, s', back) = copa_next-Sees c t s plain fuel in
      (
        keep c q,
        rw (r, ==_ne c eof plain.2, ends) (stop_at wanted _ _),
        keep-Sees c t plain.0 back s',
      )
  skip_loop-Sees (d ∷ w) p (suc fuel) h ((d_plain, passed), f) s =
      let (q, r, s', back) = copa_next-Sees d (w ++ c ∷ t) s d_plain fuel in
      let (q', r', s'') = skip_loop-Sees w q fuel (omega arith) f s' in
      (q', rw (r, ==_ne d eof d_plain.2, passed) (go_past wanted _ _ ∙ r'), s'')

-- The two loops, on a parser that is active.
pub copa_skip_over-Sees :
    (classes : List CharClass) (w : Text) (c : ℕ) (t : Text) {p : CopaParser} (fuel : ℕ)
    → length w < fuel
    → All (λ d. IsPlain d × (copa_cin d classes ≡ true)) w
    → IsPlain c
    → copa_cin c classes ≡ false
    → Sees p (w ++ c ∷ t)
    → (q : CopaParser) × (copa_skip_over fuel classes p ≡ some q) × Sees q (c ∷ t)
unfolding copa_skip_over
copa_skip_over-Sees classes w c t {p = p} fuel h f plain ends s =
    let (q, r, s') = skip_loop-Sees false classes c t plain ends w p fuel h f s in
    (q, if_true _ s.active ∙ r, s')

pub copa_skip_to-Sees :
    (classes : List CharClass) (w : Text) (c : ℕ) (t : Text) {p : CopaParser} (fuel : ℕ)
    → length w < fuel
    → All (λ d. IsPlain d × (copa_cin d classes ≡ false)) w
    → IsPlain c
    → copa_cin c classes ≡ true
    → Sees p (w ++ c ∷ t)
    → (q : CopaParser) × (copa_skip_to fuel classes p ≡ some q) × Sees q (c ∷ t)
unfolding copa_skip_to
copa_skip_to-Sees classes w c t {p = p} fuel h f plain ends s =
    let (q, r, s') = skip_loop-Sees true classes c t plain ends w p fuel h f s in
    (q, if_true _ s.active ∙ r, s')

-- A word of characters of neither class.
abbrev pub IsWord : (good_end bad_end : List CharClass) → Text → Type 0
IsWord good_end bad_end w =
    All (λ d. IsPlain d × (copa_cin d good_end ≡ false) × (copa_cin d bad_end ≡ false)) w

-- It is read up to a character of the first class.
module _ (good_end bad_end : List CharClass) (c : ℕ) (t : Text) (plain : IsPlain c)
    (ends : copa_cin c good_end ≡ true) where
  slurp_loop-Sees :
      (w : Text) (p : CopaParser) (fuel : ℕ) (ret : Text)
      → length w < fuel
      → IsWord good_end bad_end w
      → Sees p (w ++ c ∷ t)
      → Gives (slurp_loop fuel good_end bad_end ret p) (some (ret ++ w)) (c ∷ t)
  unfolding slurp_loop
  slurp_loop-Sees w p zero ret h f s = absurd (omega arith)
  slurp_loop-Sees [] p (suc fuel) ret h f s =
      let (q, r, s', back) = copa_next-Sees c t s plain fuel in
      (
        keep c q,
        rw (r, ==_ne c eof plain.2, ends)
            (ap (λ u. some (some u, keep c q)) (sym (append-nil ret))),
        keep-Sees c t plain.0 back s',
      )
  slurp_loop-Sees (d ∷ w) p (suc fuel) ret h ((d_plain, good, bad), f) s =
      let (q, r, s', back) = copa_next-Sees d (w ++ c ∷ t) s d_plain fuel in
      let (q', r', s'') = slurp_loop-Sees w q fuel (ret ++ d ∷ []) (omega arith) f s' in
      (
        q',
        rw (r, ==_ne d eof d_plain.2, good, bad)
            (r' ∙ ap (λ u. some (some u, q')) (append_assoc ret (d ∷ []) w)),
        s'',
      )

  pub copa_slurp_to-Sees :
      (w : Text) (p : CopaParser) (fuel : ℕ)
      → length w < fuel
      → IsWord good_end bad_end w
      → Sees p (w ++ c ∷ t)
      → Gives (copa_slurp_to fuel good_end bad_end p) (some w) (c ∷ t)
  unfolding copa_slurp_to
  copa_slurp_to-Sees w p fuel h f s =
      let (q, r, s') = slurp_loop-Sees w p fuel [] h f s in (q, if_true _ s.active ∙ r, s')

-- A character of the class is passed.
pub copa_assert_and_pass-Sees :
    {p : CopaParser} (classes : List CharClass) (c : ℕ) (t : Text) (fuel : ℕ)
    → IsPlain c
    → copa_cin c classes ≡ true
    → Sees p (c ∷ t)
    → Gives (copa_assert_and_pass (suc fuel) classes p) true t
unfolding copa_assert_and_pass
copa_assert_and_pass-Sees {p = p} classes c t fuel plain h s =
    let (q, r, s', back) = copa_next-Sees c t s plain fuel in
    (q, if_passed _ s.active ∙ rw (r, h) refl, s')

-- Quotes, brackets and the line feed are plain.
pub IsPlain-dquote : IsPlain b'"'
IsPlain-dquote = (ground arith, ground arith, ground arith)

-- A quoted text is what stands between the quotes.
abbrev pub IsQuotable : Text → Type 0
IsQuotable w = All (λ d. IsPlain d × (d ≢ b'"')) w

not_dquote : (d : ℕ) → d ≢ b'"' → copa_cin d (dquote ∷ []) ≡ false
unfolding in_class
not_dquote d h = rw (==_ne d b'"' h) refl

is_dquote : copa_cin b'"' (dquote ∷ []) ≡ true
unfolding in_class
is_dquote = refl

IsQuotable-IsWord : (w : Text) → IsQuotable w → IsWord (dquote ∷ []) [] w
IsQuotable-IsWord [] f = tt
IsQuotable-IsWord (d ∷ w) ((plain, h), f) = ((plain, not_dquote d h, refl), IsQuotable-IsWord w f)

pub copa_slurp_quoted-Sees :
    (w t : Text) {p : CopaParser} (fuel : ℕ)
    → length w ≤ fuel
    → IsQuotable w
    → Sees p (b'"' ∷ w ++ b'"' ∷ t)
    → Gives (copa_slurp_quoted (suc fuel) p) (some w) t
unfolding copa_slurp_quoted end_quoted in_class
copa_slurp_quoted-Sees w t {p = p} fuel h f s =
    let (q, r, s', back) = copa_next-Sees b'"' (w ++ b'"' ∷ t) s IsPlain-dquote fuel in
    let word = IsQuotable-IsWord w f in
    let (q', r', s2) =
      copa_slurp_to-Sees (dquote ∷ []) [] b'"' t IsPlain-dquote is_dquote w q (suc fuel)
        (omega arith) word s' in
    let (q2, r2, s3) =
      copa_assert_and_pass-Sees (dquote ∷ []) b'"' t fuel IsPlain-dquote is_dquote s2 in
    (q2, if_passed _ s.active ∙ rw (r, r', r2) refl, s3)
