-- ===== src/Config/Tests.antt =====
-- Runs of src/cfg-read.c with a hash that puts every name in one tree.
use sighttpd.Prelude.{ℕ, Text, none, some, List, [], ◌∷◌, ◌++◌, ◌≡◌, refl, arith, map, codes, All}
use sighttpd.Dictionary.{Dictionary}
use sighttpd.Resource.{Resource}
use sighttpd.Config.{copa_ok, copa_stop_err, block_start, block_end, cfg_new, read_events}
use sighttpd.Config.Block.{Assignment, assign_event, with_block, read_events-nested}
use sighttpd.Copa.{in_class}
use sighttpd.Copa.Parse
use sighttpd.Copa.Parse.{found}
use sighttpd.Copa.Grammar.{Line, note, opening, closing, quoted, IsLine}
use sighttpd.Copa.Decide.{are_lines-All}
use sighttpd.Copa.RoundTrip.{file_items}
use sighttpd.Config.Read.{cfg_read, assigned, cfg_read-block}

abbrev one_hash : Text → ℕ
one_hash name = 3

abbrev no_streams : Dictionary → List Resource
no_streams d = []

-- `Path "/a"` and `Text "hello"`
abbrev hello : List Assignment
hello =
    (16 ∷ [], codes "Path", some (codes "/a")) ∷ (16 ∷ [], codes "Text", some (codes "hello")) ∷ []

closed : cfg_new.block_dict ≡ none
unfolding cfg_new
closed = refl

read_events-nested_example :
    read_events one_hash no_streams
      (block_start (codes "StaticText")
        ∷ (map assign_event hello
            ++ (block_start (codes "Stdin")
                ∷ (map assign_event hello
                    ++ (block_end (codes "Stdin")
                        ∷ block_end (codes "StaticText")
                        ∷ (map assign_event hello ++ []))))))
      (copa_ok, cfg_new)
    ≡ (copa_stop_err, with_block one_hash no_streams (codes "Stdin") hello cfg_new)
read_events-nested_example =
    read_events-nested one_hash no_streams (codes "StaticText") (codes "Stdin") hello hello hello
      copa_ok cfg_new closed

-- The same block as a file, with a comment in front of it.
abbrev hello_lines : List Line
hello_lines =
    note [] (codes "note")
    ∷ opening [] (codes "StaticText")
    ∷ quoted [] (codes "Path") [] (codes "/a")
    ∷ quoted [] (codes "Text") [] (codes "hello")
    ∷ closing [] (codes "StaticText")
    ∷ []

abbrev hello_reads : List Text
hello_reads =
    (codes "#note" ++ 10 ∷ codes "<S")
    ∷ codes "taticTex"
    ∷ (codes "t>" ++ 10 ∷ codes "Path ")
    ∷ (codes "\"/a\"" ++ 10 ∷ codes "Tex")
    ∷ codes "t \"hello"
    ∷ (b'"' ∷ 10 ∷ codes "</Stat")
    ∷ (codes "icText>" ++ 10 ∷ [])
    ∷ []

hello_lines-IsLine : All IsLine hello_lines
unfolding in_class
hello_lines-IsLine = are_lines-All hello_lines refl

hello_items :
    file_items hello_lines
    ≡ Parse.block_start (codes "StaticText")
      ∷ (assigned ((codes "Path", codes "/a") ∷ (codes "Text", codes "hello") ∷ [])
          ++ (Parse.block_end (codes "StaticText") ∷ []))
unfolding found
hello_items = refl

cfg_read-block_example :
    cfg_read one_hash no_streams (λ n. 16 ∷ []) 57 (some hello_reads)
    ≡ some (some (with_block one_hash no_streams (codes "StaticText") hello cfg_new))
cfg_read-block_example =
    cfg_read-block one_hash no_streams (λ n. 16 ∷ []) hello_lines hello_reads 57
      (codes "StaticText") (codes "StaticText")
      ((codes "Path", codes "/a") ∷ (codes "Text", codes "hello") ∷ [])
      (refl, (refl, (refl, (refl, (refl, (refl, (refl, tt))))))) hello_lines-IsLine refl
      (omega arith) hello_items
