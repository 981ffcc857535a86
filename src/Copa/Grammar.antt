-- ===== src/Copa/Grammar.antt =====
-- A grammar of the files that src/cfg-parse.c reads.
use sighttpd.Prelude.{Text, true, false, Option, none, some, List, [], ◌∷◌, ◌++◌, ◌≡◌, All}
use sighttpd.Copa.{
  CharClass, newline, whitespace, comment, lbracket, rbracket, dquote, squote, slash, copa_cin,
}
use sighttpd.Copa.Parse.{Item, assignment, block_start, block_end}
use sighttpd.Copa.Next.{IsPlain}
use sighttpd.Copa.Reads.{IsWord, IsQuotable}

-- A line without its line feed: indented, and a comment, a block's start or end, or an assignment of a
-- value in quotes or of the rest of the line, with more whitespace in front of the value.
pub data Line : Type 0 where
  note : (indent rest : Text) → Line
  opening closing : (indent block : Text) → Line
  quoted bare : (indent name gap value : Text) → Line

abbrev pub line_text : Line → Text
line_text (note indent rest) = indent ++ b'#' ∷ rest
line_text (opening indent block) = indent ++ (b'<' ∷ block ++ b'>' ∷ [])
line_text (closing indent block) = indent ++ (b'<' ∷ b'/' ∷ block ++ b'>' ∷ [])
line_text (quoted indent name gap value) =
    indent ++ (name ++ b' ' ∷ (gap ++ (b'"' ∷ value ++ b'"' ∷ [])))
line_text (bare indent name gap value) = indent ++ (name ++ b' ' ∷ (gap ++ value))

-- What it stands for.
abbrev pub line_item : Line → Option Item
line_item (note indent rest) = none
line_item (opening indent block) = some (block_start block)
line_item (closing indent block) = some (block_end block)
line_item (quoted indent name gap value) = some (assignment name value)
line_item (bare indent name gap value) = some (assignment name value)

abbrev pub IsSpace : Text → Type 0
IsSpace w = All (λ d. IsPlain d × (copa_cin d (whitespace ∷ []) ≡ true)) w

-- The first character of a line behind its indentation, and of a value that has no quotes.
abbrev pub IsStart : Text → List CharClass → Type 0
IsStart [] classes = ⊥
IsStart (c ∷ w) classes = IsPlain c × (copa_cin c classes ≡ false)

abbrev pub IsLine : Line → Type 0
IsLine (note indent rest) =
    IsSpace indent × All (λ d. IsPlain d × (copa_cin d (newline ∷ []) ≡ false)) rest
IsLine (opening indent block) =
    IsSpace indent
    × IsStart block (slash ∷ [])
    × IsWord (rbracket ∷ []) (comment ∷ newline ∷ []) block
IsLine (closing indent block) =
    IsSpace indent × IsWord (rbracket ∷ []) (comment ∷ newline ∷ []) block
IsLine (quoted indent name gap value) =
    IsSpace indent
    × IsStart name (lbracket ∷ [])
    × IsWord (whitespace ∷ []) (comment ∷ newline ∷ []) name
    × IsSpace gap
    × IsQuotable value
IsLine (bare indent name gap value) =
    IsSpace indent
    × IsStart name (lbracket ∷ [])
    × IsWord (whitespace ∷ []) (comment ∷ newline ∷ []) name
    × IsSpace gap
    × IsStart value (whitespace ∷ dquote ∷ squote ∷ [])
    × IsWord (comment ∷ newline ∷ []) [] value
