-- ===== src/Config/Block.antt =====
-- The blocks of a configuration in src/cfg-read.c.
use sighttpd.Prelude.{ℕ, Text, Option, none, some, List, [], ◌∷◌, ◌++◌, ◌≡◌, refl, ◌∙◌, map}
use sighttpd.Dictionary.{Dictionary, dictionary_new, dictionary_insert}
use sighttpd.Resource.{Resource}
use sighttpd.Config.{
  Cfg, CopaStatus, copa_ok, copa_stop_err, Event, block_start, block_end, assign, is_ok,
  cfg_read_block_start, cfg_read_block_end, cfg_read_assign, block_resources, handle, read_events,
}

-- A name, its value, and the bytes at the new variable.
abbrev pub Assignment : Type 0
Assignment = Text × Text × Option Text

abbrev pub assign_event : Assignment → Event
assign_event (image, name, value) = assign image name value

-- The assignments inserted in their order.
abbrev pub insert_all : (jenkins_hash : Text → ℕ) → List Assignment → Dictionary → Dictionary
insert_all jenkins_hash [] d = d
insert_all jenkins_hash ((image, name, value) ∷ list) d =
    insert_all jenkins_hash list (dictionary_insert jenkins_hash image d name value)

module _ (jenkins_hash : Text → ℕ) (fdstream_resources : Dictionary → List Resource) where
  -- The configuration after a block that ends with `name` and has the assignments `list`.
  abbrev pub with_block : Text → List Assignment → Cfg → Cfg
  with_block name list cfg = record cfg {
    resources =
        cfg.resources
        ++ block_resources jenkins_hash fdstream_resources name
            (insert_all jenkins_hash list dictionary_new);
    block_dict = none;
  }

  read_assigns :
      (list : List Assignment) (events : List Event) (cfg : Cfg) (d : Dictionary)
      → read_events jenkins_hash fdstream_resources
          (map assign_event list ++ events)
          (copa_ok, record cfg { block_dict = some d })
        ≡ read_events jenkins_hash fdstream_resources events
            (copa_ok, record cfg { block_dict = some (insert_all jenkins_hash list d) })
  unfolding read_events handle cfg_read_assign is_ok
  read_assigns [] events cfg d = refl
  read_assigns ((image, name, value) ∷ list) events cfg d =
      read_assigns list events cfg (dictionary_insert jenkins_hash image d name value)

  skip_assigns :
      (list : List Assignment) (events : List Event) (cfg : Cfg)
      → read_events jenkins_hash fdstream_resources
          (map assign_event list ++ events)
          (copa_stop_err, cfg)
        ≡ read_events jenkins_hash fdstream_resources events (copa_stop_err, cfg)
  unfolding read_events handle is_ok
  skip_assigns [] events cfg = refl
  skip_assigns (a ∷ list) events cfg = skip_assigns list events cfg

  -- A block outside of another, whatever the status before it, adds the resources that its own
  -- assignments make, behind those before it. Its assignments do not reach the dictionary of the file,
  -- and after it no block is open and the status is COPA_OK.
  pub read_events-block :
      (name end_name : Text) (list : List Assignment) (events : List Event) (status : CopaStatus)
      (cfg : Cfg)
      → cfg.block_dict ≡ none
      → read_events jenkins_hash fdstream_resources
          (block_start name ∷ (map assign_event list ++ (block_end end_name ∷ events)))
          (status, cfg)
        ≡ read_events jenkins_hash fdstream_resources events (copa_ok, with_block end_name list cfg)
  unfolding read_events handle cfg_read_block_start cfg_read_block_end
  read_events-block name end_name list events status cfg h =
      rw h (read_assigns list (block_end end_name ∷ events) cfg dictionary_new)

  -- A block inside a block does not stop the parser. Its assignments are ignored, its end closes the
  -- block around it as one of the inner name, the end of the outer block then is an error, and
  -- the assignments behind it are ignored.
  pub read_events-nested :
      (outer inner : Text) (list ignored after : List Assignment) (status : CopaStatus) (cfg : Cfg)
      → cfg.block_dict ≡ none
      → read_events jenkins_hash fdstream_resources
          (block_start outer
            ∷ (map assign_event list
                ++ (block_start inner
                    ∷ (map assign_event ignored
                        ++ (block_end inner ∷ block_end outer ∷ (map assign_event after ++ []))))))
          (status, cfg)
        ≡ (copa_stop_err, with_block inner list cfg)
  unfolding read_events handle cfg_read_block_start cfg_read_block_end
  read_events-nested outer inner list ignored after status cfg h = rw h (
      read_assigns list _ cfg dictionary_new
      ∙ skip_assigns ignored _ _
      ∙ skip_assigns after [] (with_block inner list cfg))
