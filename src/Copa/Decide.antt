-- ===== src/Copa/Decide.antt =====
-- A test for the lines of the grammar.
use sighttpd.Prelude.{
  ℕ, Text, Bool, true, false, not, List, [], ◌∷◌, ◌≡◌, ◌≢◌, refl, arith, ◌==◌, ◌&&◌, All,
}
use sighttpd.Copa.{
  eof, backslash, CharClass, newline, whitespace, comment, lbracket, rbracket, dquote, squote,
  slash, copa_cin,
}
use sighttpd.Copa.Next.{IsPlain}
use sighttpd.Copa.Reads.{IsWord, IsQuotable}
use sighttpd.Copa.Grammar.{Line, note, opening, closing, quoted, bare, IsSpace, IsStart, IsLine}

both : (a b : Bool) → (a && b) ≡ true → (a ≡ true) × (b ≡ true)
both true b h = (refl, h)
both false b h = absurd (ground (arith, h))

not_lem : (b : Bool) → not b ≡ true → b ≡ false
not_lem true h = absurd (ground (arith, h))
not_lem false h = refl

abbrev pub is_plain : ℕ → Bool
is_plain c = not (c == 0) && (not (c == backslash) && not (c == eof))

differs : (a b : ℕ) → not (a == b) ≡ true → a ≢ b
differs a b h = ground (arith, h)

is_plain-IsPlain : (c : ℕ) → is_plain c ≡ true → IsPlain c
is_plain-IsPlain c h =
    let (a, b) = both (not (c == 0)) _ h in
    let (d, e) = both (not (c == backslash)) _ b in
    (differs c 0 a, differs c backslash d, differs c eof e)

-- Every character passes a test.
abbrev pub every : (ℕ → Bool) → Text → Bool
every test [] = true
every test (c ∷ w) = test c && every test w

every_lem :
    {P : ℕ → Type 0} (test : ℕ → Bool)
    → ((c : ℕ) → test c ≡ true → P c)
    → (w : Text) → every test w ≡ true
    → All P w
every_lem test sound [] h = tt
every_lem test sound (c ∷ w) h =
    let (a, b) = both (test c) (every test w) h in (sound c a, every_lem test sound w b)

abbrev pub is_space : Text → Bool
is_space w = every (λ c. is_plain c && copa_cin c (whitespace ∷ [])) w

abbrev pub is_word : (good_end bad_end : List CharClass) → Text → Bool
is_word good_end bad_end w =
    every (λ c. is_plain c && (not (copa_cin c good_end) && not (copa_cin c bad_end))) w

abbrev pub is_start : Text → List CharClass → Bool
is_start [] classes = false
is_start (c ∷ w) classes = is_plain c && not (copa_cin c classes)

abbrev pub is_line : Line → Bool
is_line (note indent rest) =
    is_space indent && every (λ c. is_plain c && not (copa_cin c (newline ∷ []))) rest
is_line (opening indent block) =
    is_space indent
    && (is_start block (slash ∷ []) && is_word (rbracket ∷ []) (comment ∷ newline ∷ []) block)
is_line (closing indent block) =
    is_space indent && is_word (rbracket ∷ []) (comment ∷ newline ∷ []) block
is_line (quoted indent name gap value) =
    is_space indent
    && (is_start name (lbracket ∷ [])
        && (is_word (whitespace ∷ []) (comment ∷ newline ∷ []) name
            && (is_space gap && every (λ c. is_plain c && not (c == b'"')) value)))
is_line (bare indent name gap value) =
    is_space indent
    && (is_start name (lbracket ∷ [])
        && (is_word (whitespace ∷ []) (comment ∷ newline ∷ []) name
            && (is_space gap
                && (is_start value (whitespace ∷ dquote ∷ squote ∷ [])
                    && is_word (comment ∷ newline ∷ []) [] value))))

is_space-IsSpace : (w : Text) → is_space w ≡ true → IsSpace w
is_space-IsSpace =
    every_lem _ (λ c h. let (a, b) = both (is_plain c) _ h in (is_plain-IsPlain c a, b))

is_word-IsWord :
    (good_end bad_end : List CharClass) (w : Text)
    → is_word good_end bad_end w ≡ true
    → IsWord good_end bad_end w
is_word-IsWord good_end bad_end = every_lem _ (λ c h.
    let (a, b) = both (is_plain c) _ h in
    let (d, e) = both (not (copa_cin c good_end)) _ b in
    (is_plain-IsPlain c a, not_lem _ d, not_lem _ e))

name_sound :
    (w : Text)
    → is_word (whitespace ∷ []) (comment ∷ newline ∷ []) w ≡ true
    → IsWord (whitespace ∷ []) (comment ∷ newline ∷ []) w
name_sound = is_word-IsWord (whitespace ∷ []) (comment ∷ newline ∷ [])

block_sound :
    (w : Text)
    → is_word (rbracket ∷ []) (comment ∷ newline ∷ []) w ≡ true
    → IsWord (rbracket ∷ []) (comment ∷ newline ∷ []) w
block_sound = is_word-IsWord (rbracket ∷ []) (comment ∷ newline ∷ [])

other_sound :
    (k : CharClass) (w : Text)
    → every (λ c. is_plain c && not (copa_cin c (k ∷ []))) w ≡ true
    → All (λ c. IsPlain c × (copa_cin c (k ∷ []) ≡ false)) w
other_sound k =
    every_lem _ (λ c h. let (a, b) = both (is_plain c) _ h in (is_plain-IsPlain c a, not_lem _ b))

in_quotes_sound : (w : Text) → every (λ c. is_plain c && not (c == b'"')) w ≡ true → IsQuotable w
in_quotes_sound =
    every_lem _
      (λ c h. let (a, b) = both (is_plain c) _ h in (is_plain-IsPlain c a, differs c b'"' b))

is_start-IsStart :
    (w : Text) (classes : List CharClass) → is_start w classes ≡ true → IsStart w classes
is_start-IsStart [] classes h = ground (arith, h)
is_start-IsStart (c ∷ w) classes h =
    let (a, b) = both (is_plain c) _ h in (is_plain-IsPlain c a, not_lem _ b)

is_line-IsLine : (l : Line) → is_line l ≡ true → IsLine l
is_line-IsLine (note indent rest) h =
    let (a, b) = both (is_space indent) _ h in
    (is_space-IsSpace indent a, other_sound newline rest b)
is_line-IsLine (opening indent block) h =
    let (a, b) = both (is_space indent) _ h in
    let (d, e) = both (is_start block (slash ∷ [])) _ b in
    (is_space-IsSpace indent a, is_start-IsStart block (slash ∷ []) d, block_sound block e)
is_line-IsLine (closing indent block) h =
    let (a, b) = both (is_space indent) _ h in (is_space-IsSpace indent a, block_sound block b)
is_line-IsLine (quoted indent name gap value) h =
    let (a, b) = both (is_space indent) _ h in
    let (d, e) = both (is_start name (lbracket ∷ [])) _ b in
    let (f, g) = both (is_word (whitespace ∷ []) (comment ∷ newline ∷ []) name) _ e in
    let (i, j) = both (is_space gap) _ g in
    (
      is_space-IsSpace indent a,
      is_start-IsStart name (lbracket ∷ []) d,
      name_sound name f,
      is_space-IsSpace gap i,
      in_quotes_sound value j,
    )
is_line-IsLine (bare indent name gap value) h =
    let (a, b) = both (is_space indent) _ h in
    let (d, e) = both (is_start name (lbracket ∷ [])) _ b in
    let (f, g) = both (is_word (whitespace ∷ []) (comment ∷ newline ∷ []) name) _ e in
    let (i, j) = both (is_space gap) _ g in
    let (k, l) = both (is_start value (whitespace ∷ dquote ∷ squote ∷ [])) _ j in
    (
      is_space-IsSpace indent a,
      is_start-IsStart name (lbracket ∷ []) d,
      name_sound name f,
      is_space-IsSpace gap i,
      is_start-IsStart value (whitespace ∷ dquote ∷ squote ∷ []) k,
      is_word-IsWord (comment ∷ newline ∷ []) [] value l,
    )

abbrev pub are_lines : List Line → Bool
are_lines [] = true
are_lines (l ∷ ls) = is_line l && are_lines ls

pub are_lines-All : (ls : List Line) → are_lines ls ≡ true → All IsLine ls
are_lines-All [] h = tt
are_lines-All (l ∷ ls) h =
    let (a, b) = both (is_line l) (are_lines ls) h in (is_line-IsLine l a, are_lines-All ls b)
