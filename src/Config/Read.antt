-- ===== src/Config/Read.antt =====
-- `cfg_read` of src/cfg-read.c: the parser of src/cfg-parse.c with the functions that it calls back.
use sighttpd.Prelude.{
  ℕ, suc, ◌+◌, ◌<◌, Text, Option, none, some, List, [], ◌∷◌, ◌++◌, ◌≡◌, refl, ◌∙◌, ap, arith, map,
  length, All, ◌>>=◌,
}
use sighttpd.Dictionary.{Dictionary}
use sighttpd.Resource.{Resource}
use sighttpd.Copa.Parse
use sighttpd.Copa.Parse.{Item, assignment, copa_read_fd}
use sighttpd.Copa.Grammar.{Line, IsLine}
use sighttpd.Copa.RoundTrip.{file_text, file_items, concat, IsFull, copa_read_fd-file_text}
use sighttpd.Config.{Cfg, copa_ok, Event, block_start, block_end, assign, cfg_new, read_events}
use sighttpd.Config.Block.{Assignment, assign_event, with_block, read_events-block}

-- The calls for what the parser finds; `images` gives the bytes that are at the address of the variable
-- that the nth call would make.
unfoldable pub events_of : (images : ℕ → Text) → ℕ → List Item → List Event
events_of images n [] = []
events_of images n (Parse.block_start name ∷ items) =
    block_start name ∷ events_of images (n + 1) items
events_of images n (Parse.block_end name ∷ items) = block_end name ∷ events_of images (n + 1) items
events_of images n (assignment name value ∷ items) =
    assign (images n) name (some value) ∷ events_of images (n + 1) items

-- Assignments as the parser finds them.
abbrev pub assigned : List (Text × Text) → List Item
assigned [] = []
assigned ((name, value) ∷ list) = assignment name value ∷ assigned list

module _ (jenkins_hash : Text → ℕ) (fdstream_resources : Dictionary → List Resource)
    (images : ℕ → Text) where
  -- `cfg_read`, by the file that open(2) gives; the result `none` is NULL. The answer of
  -- `copa_read` is 0 whatever its parser finds.
  unfoldable pub cfg_read : ℕ → Option (List Text) → Option (Option Cfg)
  cfg_read fuel none = some none
  cfg_read fuel (some input) = do
    items ← copa_read_fd fuel input
    some (
        some
          (read_events jenkins_hash fdstream_resources (events_of images 0 items)
            (copa_ok, cfg_new)).1)

  -- The assignments of a block as `cfg_read_assign` gets them.
  abbrev pub assignments : ℕ → List (Text × Text) → List Assignment
  assignments n [] = []
  assignments n ((name, value) ∷ list) = (images n, name, some value) ∷ assignments (n + 1) list

  add_zero : (n : ℕ) → n ≡ n + 0
  add_zero n = omega arith

  add_suc : (m n : ℕ) → m + 1 + n ≡ m + suc n
  add_suc m n = omega arith

  events_of-assigned :
      (list : List (Text × Text)) (n : ℕ) (items : List Item)
      → events_of images n (assigned list ++ items)
        ≡ map assign_event (assignments n list) ++ events_of images (n + length list) items
  unfolding events_of
  events_of-assigned [] n items = ap (λ k. events_of images k items) (add_zero n)
  events_of-assigned ((name, value) ∷ list) n items =
      ap (λ u. assign (images n) name (some value) ∷ u)
        (events_of-assigned list (n + 1) items
          ∙ ap (λ k. map assign_event (assignments (n + 1) list) ++ events_of images k items)
              (add_suc n (length list)))

  -- A configuration file whose length is a multiple of the parser's buffer, and whose lines, with
  -- comments and indentation wherever the grammar allows them, come to one block and its assignments,
  -- is read, with more fuel than it has bytes, into the configuration that has the resources of that block and an empty dictionary.
  pub cfg_read-block :
      (ls : List Line) (input : List Text) (fuel : ℕ) (name end_name : Text)
      (list : List (Text × Text))
      → All IsFull input
      → All IsLine ls
      → concat input ≡ file_text ls
      → length (file_text ls) < fuel
      → file_items ls ≡ Parse.block_start name ∷ (assigned list ++ (Parse.block_end end_name ∷ []))
      → cfg_read fuel (some input)
        ≡ some (
            some (with_block jenkins_hash fdstream_resources end_name (assignments 1 list) cfg_new))
  unfolding cfg_read events_of read_events cfg_new
  cfg_read-block ls input fuel name end_name list f g h k items =
      rw
        (
          copa_read_fd-file_text ls input fuel f g h k,
          items,
          events_of-assigned list 1 (Parse.block_end end_name ∷ []),
        )
        (ap (λ s. some (some s.1))
          (read_events-block jenkins_hash fdstream_resources name end_name (assignments 1 list) []
            copa_ok cfg_new refl))
