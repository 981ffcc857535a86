-- ===== src/Config.antt =====
-- src/cfg-read.c: the configuration that is built up by the calls back of src/cfg-parse.c,
-- in a build without HAVE_OGGZ and HAVE_SHCODECS; and the list of resources of src/sighttpd.c.
pub mod Block
pub mod Read
mod Tests
use sighttpd.Prelude.{
  ℕ, Text, Bool, true, false, Option, none, some, List, [], ◌∷◌, ◌++◌, codes, if◌then◌else◌,
  strn_eq, lower,
}
use sighttpd.Dictionary.{Dictionary, dictionary_new, dictionary_insert}
use sighttpd.Resource.{Resource, statictext_resources, status_resource, flim_resource}

-- `struct cfg`
pub record Cfg : Type 0 where
  pub dictionary : Dictionary
  pub block_dict : Option Dictionary
  pub resources : List Resource

-- `CopaStatus`
pub data CopaStatus : Type 0 where
  copa_stop_err copa_sys_err copa_ok copa_stop copa_skip_block : CopaStatus

-- `parser->status == COPA_OK`
unfoldable pub is_ok : CopaStatus → Bool
is_ok copa_ok = true
is_ok _ = false

-- A call of the parser. The value of an assignment comes with the bytes that are at the address of
-- its new `Variable`, if it gets one.
pub data Event : Type 0 where
  block_start block_end : Text → Event
  assign : (image name : Text) → Option Text → Event

-- `!strncasecmp(a, b, n)`
unfoldable pub strncase_eq : Text → Text → ℕ → Bool
strncase_eq a b n = strn_eq (lower a) (lower b) n

-- `cfg_read_block_start`
unfoldable pub cfg_read_block_start : Option Dictionary → Cfg → CopaStatus × Cfg
cfg_read_block_start (some d) cfg = (copa_stop_err, cfg)
cfg_read_block_start none cfg = (copa_ok, record cfg { block_dict = some dictionary_new })

-- What `cfg_read` starts from.
unfoldable pub cfg_new : Cfg
cfg_new = record { dictionary = dictionary_new; block_dict = none; resources = [] }

module _ (jenkins_hash : Text → ℕ) (fdstream_resources : Dictionary → List Resource) where
  -- The resources of a block.
  unfoldable pub block_resources : Text → Dictionary → List Resource
  block_resources name block_dict =
      if strncase_eq name (codes "StaticText") 10
      then statictext_resources jenkins_hash block_dict
      else if strncase_eq name (codes "Stdin") 5
      then fdstream_resources block_dict
      else []

  -- `cfg_read_block_end`, by `cfg->block_dict`
  unfoldable pub cfg_read_block_end : Text → Option Dictionary → Cfg → CopaStatus × Cfg
  cfg_read_block_end name none cfg = (copa_stop_err, cfg)
  cfg_read_block_end name (some block_dict) cfg = (
    copa_ok,
    record cfg { resources = cfg.resources ++ block_resources name block_dict; block_dict = none },
  )

  -- `cfg_read_assign`, by `cfg->block_dict`
  unfoldable pub cfg_read_assign :
      (image name : Text) → Option Text → Option Dictionary → Cfg → CopaStatus × Cfg
  cfg_read_assign image name value none cfg = (
    copa_ok,
    record cfg { dictionary = dictionary_insert jenkins_hash image cfg.dictionary name value },
  )
  cfg_read_assign image name value (some block_dict) cfg = (
    copa_ok,
    record cfg { block_dict = some (dictionary_insert jenkins_hash image block_dict name value) },
  )

  -- What the parser of src/cfg-parse.c does at the places where it calls back, with `parser->status`:
  -- the result of a block's start or end is the new status, and an assignment is passed on, its
  -- result ignored, where the status is COPA_OK.
  unfoldable pub handle : Event → CopaStatus × Cfg → CopaStatus × Cfg
  handle (block_start name) (status, cfg) = cfg_read_block_start cfg.block_dict cfg
  handle (block_end name) (status, cfg) = cfg_read_block_end name cfg.block_dict cfg
  handle (assign image name value) (status, cfg) =
      if is_ok status
      then (status, (cfg_read_assign image name value cfg.block_dict cfg).1)
      else (status, cfg)

  -- The loop of `copa_read_fd` over what it finds in a file. It does not look at the status.
  unfoldable pub read_events : List Event → CopaStatus × Cfg → CopaStatus × Cfg
  read_events [] state = state
  read_events (event ∷ events) state = read_events events (handle event state)

-- The resources of the server after `sighttpd_init`: those of the configuration, those that are
-- built in, then those of the assignments outside of blocks.
unfoldable pub server_resources :
    (jenkins_hash : Text → ℕ) (version : Text) (active : ℕ) (uiomux kongou : Resource)
    → Cfg
    → List Resource
server_resources jenkins_hash version active uiomux kongou cfg =
    (cfg.resources ++ (status_resource version active ∷ flim_resource ∷ uiomux ∷ kongou ∷ []))
    ++ statictext_resources jenkins_hash cfg.dictionary
