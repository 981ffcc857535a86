-- ===== src/Copa/Tests.antt =====
-- Runs of src/cfg-parse.c on files of lines of its grammar.
use sighttpd.Prelude.{Text, some, List, [], ◌∷◌, ◌++◌, ◌≡◌, refl, arith, codes, All}
use sighttpd.Copa.{in_class}
use sighttpd.Copa.Parse.{Item, assignment, block_start, block_end, found, copa_read_fd}
use sighttpd.Copa.Grammar.{Line, note, opening, closing, quoted, bare, IsLine}
use sighttpd.Copa.Decide.{are_lines-All}
use sighttpd.Copa.Total.{copa_read_fd-Ends}
use sighttpd.Copa.RoundTrip.{copa_read_fd-file_text, copa_read_fd_stale}

-- `#text`, `<S>`, ` a "b#"`, `bbb dd e` and `</S>`
abbrev block : List Line
block =
    note [] (codes "text")
    ∷ opening [] (codes "S")
    ∷ quoted (codes " ") (codes "a") [] (codes "b#")
    ∷ bare [] (codes "bbb") [] (codes "dd e")
    ∷ closing [] (codes "S")
    ∷ []

block-IsLine : All IsLine block
unfolding in_class
block-IsLine = are_lines-All block refl

-- The reads of the file that has them.
abbrev block_reads : List Text
block_reads =
    (codes "#text" ++ 10 ∷ codes "<S")
    ∷ (b'>' ∷ 10 ∷ codes " a \"b#")
    ∷ (b'"' ∷ 10 ∷ codes "bbb dd")
    ∷ (codes " e" ++ 10 ∷ codes "</S>" ++ 10 ∷ [])
    ∷ []

copa_read_fd-file_text_example :
    copa_read_fd 33 block_reads
    ≡ some (
        block_start (codes "S")
        ∷ assignment (codes "a") (codes "b#")
        ∷ assignment (codes "bbb") (codes "dd e")
        ∷ block_end (codes "S")
        ∷ [])
unfolding found
copa_read_fd-file_text_example =
    copa_read_fd-file_text block block_reads 33 (refl, (refl, (refl, (refl, tt)))) block-IsLine refl
      (omega arith)

-- `a b`, `c d` and `e f`, read as eight bytes and four: `c d` comes twice.
abbrev assigned : List Line
assigned =
    bare [] (codes "a") [] (codes "b")
    ∷ bare [] (codes "c") [] (codes "d")
    ∷ bare [] (codes "e") [] (codes "f")
    ∷ bare [] (codes "c") [] (codes "d")
    ∷ []

assigned-IsLine : All IsLine assigned
unfolding in_class
assigned-IsLine = are_lines-All assigned refl

copa_read_fd_stale_example :
    copa_read_fd 17 ((codes "a b" ++ 10 ∷ codes "c d" ++ 10 ∷ []) ∷ (codes "e f" ++ 10 ∷ []) ∷ [])
    ≡ some (
        assignment (codes "a") (codes "b")
        ∷ assignment (codes "c") (codes "d")
        ∷ assignment (codes "e") (codes "f")
        ∷ assignment (codes "c") (codes "d")
        ∷ [])
unfolding found
copa_read_fd_stale_example =
    copa_read_fd_stale assigned [] (codes "a b" ++ 10 ∷ codes "c d" ++ 10 ∷ [])
      (codes "e f" ++ 10 ∷ []) 17 tt refl (omega arith) (omega arith) assigned-IsLine refl
      (omega arith)

-- A file that ends within an escape, with a byte 255 and a short answer in front of it.
copa_read_fd-Ends_example :
    (items : List Item) × (copa_read_fd 49
        ((255 ∷ codes "a b") ∷ (10 ∷ codes "c \"\\07") ∷ codes "\\x" ∷ [])
      ≡ some items)
copa_read_fd-Ends_example =
    copa_read_fd-Ends ((255 ∷ codes "a b") ∷ (10 ∷ codes "c \"\\07") ∷ codes "\\x" ∷ []) 49
      (omega arith)
