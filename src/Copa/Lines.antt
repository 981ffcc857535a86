-- ===== src/Copa/Lines.antt =====
-- What src/cfg-parse.c makes of an assignment.
use sighttpd.Prelude.{
  subst, ap, length-append, append_assoc, ℕ, suc, ◌≤◌, ◌<◌, Text, Bool, true, false, some, List, [],
  ◌∷◌, ◌++◌, ◌≡◌, refl, ◌∙◌, if◌then◌else◌, ◌||◌, ◌>>=◌, arith, length,
}
use sighttpd.Copa.{
  CopaParser, CharClass, newline, whitespace, comment, lbracket, dquote, squote, copa_cin, in_class,
}
use sighttpd.Copa.Parse.{
  assignment, copa_slurp_lineval, copa_slurp_quoted, parse_value, end_assignment,
  copa_parse_assignment, parse_rest,
}
use sighttpd.Copa.Next.{Sees, IsPlain}
use sighttpd.Copa.Reads.{
  Gives, if_passed, IsWord, IsQuotable, IsPlain-dquote, copa_peek-Sees, copa_skip_over-Sees,
  copa_slurp_to-Sees, copa_slurp_quoted-Sees,
}
use sighttpd.Copa.Grammar.{IsSpace}
use sighttpd.Copa.Blocks.{IsPlain-line_feed, IsPlain-space, is_space, is_newline}

-- A character of no class of a list is of none of a part of it.
or_false : (a b : Bool) → (a || b) ≡ false → (a ≡ false) × (b ≡ false)
or_false true b h = absurd (ground (arith, h))
or_false false b h = (refl, h)

pub copa_cin_first :
    (c : ℕ) (k : CharClass) (ks : List CharClass)
    → copa_cin c (k ∷ ks) ≡ false
    → copa_cin c (k ∷ []) ≡ false
copa_cin_first c k ks h = rw ((or_false (in_class c k) (copa_cin c ks) h).0) refl

pub copa_cin_rest :
    (c : ℕ) (k : CharClass) (ks : List CharClass)
    → copa_cin c (k ∷ ks) ≡ false
    → copa_cin c ks ≡ false
copa_cin_rest c k ks h = (or_false (in_class c k) (copa_cin c ks) h).1

-- The name of an assignment, and the space behind it.
name-Sees :
    (c : ℕ) (name u : Text) {p : CopaParser} (fuel : ℕ)
    → length name < fuel
    → copa_cin c (lbracket ∷ []) ≡ false
    → IsWord (whitespace ∷ []) (comment ∷ newline ∷ []) (c ∷ name)
    → Sees p (c ∷ name ++ b' ' ∷ u)
    → (q : CopaParser) × (parse_rest (suc fuel) c p ≡ parse_value (suc fuel) (some (c ∷ name)) q)
      × Sees q (b' ' ∷ u)
unfolding parse_rest copa_parse_assignment
name-Sees c name u {p = p} fuel h start f s =
    let (q, r, s') =
      copa_slurp_to-Sees (whitespace ∷ []) (comment ∷ newline ∷ []) b' ' u IsPlain-space is_space
        (c ∷ name) p (suc fuel) (omega arith) f s in
    (
      q,
      rw (copa_cin_first c comment (newline ∷ []) f.0.2, start) (if_passed _ s.active ∙ rw r refl),
      s',
    )

-- The whitespace in front of a value that starts with `c`.
module _ (name gap : Text) (c : ℕ) (t : Text) {p : CopaParser} (fuel : ℕ) (h : length gap < fuel)
    (f : IsSpace gap) (plain : IsPlain c) (black : copa_cin c (whitespace ∷ []) ≡ false)
    (s : Sees p (b' ' ∷ gap ++ c ∷ t)) where
  value_start-Sees :
      (q : CopaParser) × (parse_value (suc fuel) (some name) p ≡ (do
        (value, s) ←
            if copa_cin c (dquote ∷ squote ∷ [])
            then copa_slurp_quoted (suc fuel) q
            else copa_slurp_lineval (suc fuel) q
        some (end_assignment name value s)))
      × Sees q (c ∷ t)
  unfolding parse_value
  value_start-Sees =
      let (q, r, s') =
        copa_skip_over-Sees (whitespace ∷ []) (b' ' ∷ gap) c t (suc fuel) (omega arith)
          ((IsPlain-space, is_space), f) plain black s in
      let (q', r', s2) = copa_peek-Sees c t fuel plain s' in (q', rw (r, r') refl, s2)

quoted-Sees :
    (name gap value t : Text) {p : CopaParser} (fuel : ℕ)
    → length gap < fuel
    → length value ≤ fuel
    → IsSpace gap
    → IsQuotable value
    → Sees p (b' ' ∷ gap ++ (b'"' ∷ value ++ b'"' ∷ t))
    → Gives (parse_value (suc fuel) (some name) p) (some (assignment name value)) t
unfolding in_class end_assignment
quoted-Sees name gap value t fuel h k f g s =
    let (q, r, s') =
      value_start-Sees name gap b'"' (value ++ b'"' ∷ t) fuel h f IsPlain-dquote refl s in
    let (q', r', s2) = copa_slurp_quoted-Sees value t fuel k g s' in (q', r ∙ rw r' refl, s2)

bare-Sees :
    (name gap : Text) (c : ℕ) (value t : Text) {p : CopaParser} (fuel : ℕ)
    → length gap < fuel
    → length value < fuel
    → IsSpace gap
    → copa_cin c (whitespace ∷ dquote ∷ squote ∷ []) ≡ false
    → IsWord (comment ∷ newline ∷ []) [] (c ∷ value)
    → Sees p (b' ' ∷ gap ++ (c ∷ value ++ 10 ∷ t))
    → Gives (parse_value (suc fuel) (some name) p) (some (assignment name (c ∷ value))) (10 ∷ t)
unfolding copa_slurp_lineval end_assignment
bare-Sees name gap c value t fuel h k f start g s =
    let black = copa_cin_first c whitespace (dquote ∷ squote ∷ []) start in
    let (q, r, s') = value_start-Sees name gap c (value ++ 10 ∷ t) fuel h f g.0.0 black s in
    let (q', r', s2) =
      copa_slurp_to-Sees (comment ∷ newline ∷ []) [] 10 t IsPlain-line_feed is_newline (c ∷ value) q
        (suc fuel) (omega arith) g s' in
    (q', r ∙ rw (copa_cin_rest c whitespace (dquote ∷ squote ∷ []) start, r') refl, s2)

-- A line of an assignment behind its indentation.
pub quoted_rest-Sees :
    (c : ℕ) (name gap value t : Text) {p : CopaParser} (fuel : ℕ)
    → length (name ++ b' ' ∷ (gap ++ (b'"' ∷ value ++ b'"' ∷ []))) < fuel
    → copa_cin c (lbracket ∷ []) ≡ false
    → IsWord (whitespace ∷ []) (comment ∷ newline ∷ []) (c ∷ name)
    → IsSpace gap
    → IsQuotable value
    → Sees p (c ∷ (name ++ b' ' ∷ (gap ++ (b'"' ∷ value ++ b'"' ∷ []))) ++ t)
    → Gives (parse_rest (suc fuel) c p) (some (assignment (c ∷ name) value)) t
quoted_rest-Sees c name gap value t {p = p} fuel few start f k v s =
    let behind : Text = gap ++ (b'"' ∷ value ++ b'"' ∷ []) in
    let of_name = length-append name (b' ' ∷ behind) in
    let of_gap = length-append gap (b'"' ∷ value ++ b'"' ∷ []) in
    let of_value = length-append value (b'"' ∷ []) in
    let name_text = ap (λ u. c ∷ u) (append_assoc name (b' ' ∷ behind) t) in
    let value_text =
      ap (λ u. b' ' ∷ u)
        (append_assoc gap (b'"' ∷ value ++ b'"' ∷ []) t
          ∙ ap (λ u. gap ++ (b'"' ∷ u)) (append_assoc value (b'"' ∷ []) t)) in
    let (q, r, s') =
      name-Sees c name (behind ++ t) fuel (omega arith) start f (subst (Sees p) name_text s) in
    let (q', r', s2) =
      quoted-Sees (c ∷ name) gap value t fuel (omega arith) (omega arith) k v
        (subst (Sees q) value_text s') in
    (q', r ∙ r', s2)

pub bare_rest-Sees :
    (c : ℕ) (name gap : Text) (d : ℕ) (value t : Text) {p : CopaParser} (fuel : ℕ)
    → length (name ++ b' ' ∷ (gap ++ d ∷ value)) < fuel
    → copa_cin c (lbracket ∷ []) ≡ false
    → IsWord (whitespace ∷ []) (comment ∷ newline ∷ []) (c ∷ name)
    → IsSpace gap
    → copa_cin d (whitespace ∷ dquote ∷ squote ∷ []) ≡ false
    → IsWord (comment ∷ newline ∷ []) [] (d ∷ value)
    → Sees p (c ∷ (name ++ b' ' ∷ (gap ++ d ∷ value)) ++ 10 ∷ t)
    → Gives (parse_rest (suc fuel) c p) (some (assignment (c ∷ name) (d ∷ value))) (10 ∷ t)
bare_rest-Sees c name gap d value t {p = p} fuel few start f k v u s =
    let of_name = length-append name (b' ' ∷ (gap ++ d ∷ value)) in
    let of_gap = length-append gap (d ∷ value) in
    let name_text = ap (λ u. c ∷ u) (append_assoc name (b' ' ∷ (gap ++ d ∷ value)) (10 ∷ t)) in
    let value_text = ap (λ u. b' ' ∷ u) (append_assoc gap (d ∷ value) (10 ∷ t)) in
    let (q, r, s') =
      name-Sees c name ((gap ++ d ∷ value) ++ 10 ∷ t) fuel (omega arith) start f
        (subst (Sees p) name_text s) in
    let (q', r', s2) =
      bare-Sees (c ∷ name) gap d value t fuel (omega arith) (omega arith) k v u
        (subst (Sees q) value_text s') in
    (q', r ∙ r', s2)
